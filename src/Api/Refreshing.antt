-- ===== src/Api/Refreshing.antt =====
-- The messages of `trigger_refresh` of src/api/mod.rs to the updater.
use ad_nope.Prelude.{
  ℕ, zero, suc, ◌+◌, ◌≡◌, refl, ap, ◌∙◌, Bool-cases, ◌⊎◌, inl, inr, true, false, List, [], ◌∷◌,
  replicate, arith, if◌then◌else◌,
}
use ad_nope.Api.{RefreshChannel, Received, message, ended, waits, send, recv}

-- A trigger over the API, or the updater ready to receive.
pub data Move : Type 0 where
  trigger receive : Move

-- What the updater does: whatever `recv` returns, a refresh follows.
abbrev pub received : ℕ → RefreshChannel → Received → ℕ × RefreshChannel
received refreshes c (message d) = (refreshes + 1, d)
received refreshes c ended = (refreshes + 1, c)
received refreshes c waits = (refreshes, c)

-- A move, with the number of refreshes that were forced.
unfoldable pub step : Move → ℕ × RefreshChannel → ℕ × RefreshChannel
unfolding send recv
step trigger (refreshes, c) = (refreshes, send c)
step receive (refreshes, c) = received refreshes c (recv c)

unfoldable pub run : List Move → ℕ × RefreshChannel → ℕ × RefreshChannel
run [] p = p
run (m ∷ ms) p = run ms (step m p)

abbrev pub triggers : List Move → ℕ
triggers [] = 0
triggers (trigger ∷ ms) = triggers ms + 1
triggers (receive ∷ ms) = triggers ms

-- The messages that are held or wait for room.
abbrev pub queued : RefreshChannel → ℕ
queued c = if c.pending then c.waiting + 1 else c.waiting

-- The updater and a sender live, and a sender waits only behind a message.
record IsLive (c : RefreshChannel) : Type 0 where
  alive : c.closed ≡ false
  connected : c.disconnected ≡ false
  ordered : (if c.pending then 0 else c.waiting) ≡ 0

step-IsLive :
    (m : Move) (p : ℕ × RefreshChannel)
    → IsLive p.1
    → IsLive (step m p).1
      × ((step m p).0 + queued (step m p).1 ≡ p.0 + queued p.1 + triggers (m ∷ []))
unfolding step send recv
step-IsLive trigger (n, c) i =
    let alive = i.alive in
    let connected = i.connected in
    let ordered = i.ordered in
    (
      record { alive = ground arith; connected = ground arith; ordered = ground arith },
      ground arith,
    )
step-IsLive receive (n, c) i =
    let alive = i.alive in
    let connected = i.connected in
    let ordered = i.ordered in
    (
      record { alive = ground arith; connected = ground arith; ordered = ground arith },
      ground arith,
    )

triggers_cons : (m : Move) (ms : List Move) → triggers (m ∷ ms) ≡ triggers (m ∷ []) + triggers ms
triggers_cons trigger ms = omega arith
triggers_cons receive ms = omega arith

run-counts :
    (ms : List Move) (p : ℕ × RefreshChannel)
    → IsLive p.1
    → IsLive (run ms p).1 × ((run ms p).0 + queued (run ms p).1 ≡ p.0 + queued p.1 + triggers ms)
unfolding run
run-counts [] p i = (i, omega arith)
run-counts (m ∷ ms) p i =
    let (j, e) = step-IsLive m p i in
    let (k, f) = run-counts ms (step m p) j in let all = triggers_cons m ms in (k, omega arith)

-- A channel that has just been made, with room for one message.
abbrev pub fresh : RefreshChannel
fresh = record { pending = false; waiting = 0; closed = false; disconnected = false }

-- While the updater and a sender live, over any sequence of triggers and receptions, the refreshes
-- that were forced and the messages that are held or wait for room are together as many as the
-- triggers: none is lost, and none is
-- served twice. If no message is held then none waits, and every trigger has been served.
pub run-triggers :
    (ms : List Move)
    → ((run ms (0, fresh)).0 + queued (run ms (0, fresh)).1 ≡ triggers ms)
      × (((run ms (0, fresh)).1.pending ≡ true) ⊎ ((run ms (0, fresh)).0 ≡ triggers ms))
run-triggers ms =
    let (i, e) =
      run-counts ms (0, fresh) (record { alive = refl; connected = refl; ordered = refl }) in
    let ordered = i.ordered in
    (
      omega arith,
      elim (Bool-cases (run ms (0, fresh)).1.pending) [
        | inl held ↦ inl held
        | inr idle ↦ inr (ground arith)
      ],
    )

-- Once no sender is left and no message is held, each time the updater is ready to receive it
-- refreshes at once, without any trigger: `n` times it does so `n` times.
run-disconnected :
    (n refreshes : ℕ) (c : RefreshChannel)
    → c.disconnected ≡ true
    → c.pending ≡ false
    → run (replicate n receive) (refreshes, c) ≡ (refreshes + n, c)
unfolding run step recv
run-disconnected zero refreshes c gone idle = ap (λ k. (k, c)) (omega arith)
run-disconnected (suc n) refreshes c gone idle =
    let once : step receive (refreshes, c) ≡ (refreshes + 1, c) = rw (idle, gone) refl in
    ap (run (replicate n receive)) once
    ∙ run-disconnected n (refreshes + 1) c gone idle
    ∙ ap (λ k. (k, c)) (omega arith)
