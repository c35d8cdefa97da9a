-- ===== src/App/Program/Unbound.antt =====
-- The updater of src/main.rs when the port of the web API is taken.
use ad_nope.Prelude.{ℕ, zero, suc, ◌+◌, ◌≤◌, ◌≡◌, refl, true, false, List, [], ◌∷◌, arith}
use ad_nope.Server.Query.{Handler}
use ad_nope.Api.{RefreshChannel, ended, recv}
use ad_nope.App.Start.{AppServer, Downloads}
use ad_nope.App.Updater.{on_end}
use ad_nope.App.Program.{
  World, Program, Happening, received, updated, launched, Runs, done, next, on_message, on_update,
}

-- A number of rounds at one instant, each with its update.
abbrev pub rounds : ℕ → ℕ → Downloads → List Happening
rounds zero now d = []
rounds (suc n) now d = received now ∷ updated d ∷ rounds n now d

recv-unbound : (c : RefreshChannel) → c.pending ≡ false → c.disconnected ≡ true → recv c ≡ ended
unfolding recv
recv-unbound c idle gone = rw (idle, gone) refl

module _ (w : World) (h : Handler) where
  unbound-from :
      (n now : ℕ) (d : Downloads) (p : Program w)
      → p.downloading ≡ false
      → p.updater.channel.pending ≡ false
      → p.updater.channel.disconnected ≡ true
      → p.updater.woken ≤ now
      → now + w.tokio.period p.updater.timer ≤ w.moka.max_instant
      → (q : Program w) × Runs w h p (rounds n now d) q
  unbound-from zero now d p ready idle gone after range = (p, done)
  unbound-from (suc n) now d p ready idle gone after range =
      let (t, set) = w.tokio.reset-returns now p.updater.timer range in
      let same = w.tokio.period-reset now p.updater.timer t set in
      let (q, runs) = unbound-from n now d _ refl idle gone (omega arith) (omega arith) in
      (
        q,
        next
            (on_message now ready (on_end now after (recv-unbound p.updater.channel idle gone) set))
            (next (on_update d refl) runs),
      )

  -- If the port of the API cannot be bound, the updater may run any number of rounds at one and the
  -- same instant, without a trigger and without a scheduled round: nothing paces it.
  pub unbound-rounds :
      (n now start : ℕ) (d : Downloads) (t : w.tokio.Timer)
      (s : AppServer w.env w.net w.moka w.names w.to_lowercase)
      → start ≤ now
      → now + w.tokio.period t ≤ w.moka.max_instant
      → (q : Program w) × Runs w h (launched w s t start false) (rounds n now d) q
  unbound-rounds n now start d t s after range =
      unbound-from n now d (launched w s t start false) refl refl refl after range
