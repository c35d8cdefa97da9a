-- ===== src/Logger/Memory.antt =====
-- src/logger/memory_sink.rs and src/api/in_memory_stats.rs: the ring buffer of recent entries.
use mathlib.Core.List.{append-nil, append_assoc}
use ad_nope.Prelude.{
  ℕ, zero, suc, ◌-◌, ◌≤◌, ◌<◌, ◌≡◌, refl, ap, sym, ◌∙◌, List, [], ◌∷◌, ◌++◌, reverse, length,
  length-append, length-drop, take, drop, leb, ltb, ltb→lt, ltb-false→le, arith, if◌then◌else◌,
  Bool-cases, inl, inr,
}
use ad_nope.Logger.{QueryLogEntry}

pub record MemoryLogSink : Type 0 where
  pub buffer : List QueryLogEntry
  pub capacity : ℕ

unfoldable pub new : ℕ → MemoryLogSink
new capacity = record { buffer = []; capacity = capacity }

-- `VecDeque::pop_front`, without the element
abbrev pub pop_front : List QueryLogEntry → List QueryLogEntry
pop_front [] = []
pop_front (x ∷ xs) = xs

unfoldable pub log : MemoryLogSink → QueryLogEntry → MemoryLogSink
log s entry =
    let kept = if leb s.capacity (length s.buffer) then pop_front s.buffer else s.buffer in
    record s { buffer = kept ++ (entry ∷ []) }

unfoldable pub get_recent : MemoryLogSink → List QueryLogEntry
get_recent s = s.buffer

-- `InMemoryStatsSource::get_logs`: the newest first.
unfoldable pub get_logs : MemoryLogSink → ℕ → List QueryLogEntry
get_logs s limit = take limit (reverse s.buffer)

unfoldable pub log_all : MemoryLogSink → List QueryLogEntry → MemoryLogSink
log_all s [] = s
log_all s (e ∷ es) = log_all (log s e) es

-- The last `n` elements.
abbrev pub last_of : ℕ → List QueryLogEntry → List QueryLogEntry
last_of n xs = drop (length xs - n) xs

drop-append :
    (k : ℕ) (xs ys : List QueryLogEntry) → k ≤ length xs → drop k (xs ++ ys) ≡ drop k xs ++ ys
drop-append zero xs ys h = refl
drop-append (suc k) [] ys h = absurd (omega arith)
drop-append (suc k) (x ∷ xs) ys h = drop-append k xs ys (omega arith)

pop_front-drop : (k : ℕ) (xs : List QueryLogEntry) → pop_front (drop k xs) ≡ drop (suc k) xs
pop_front-drop zero [] = refl
pop_front-drop zero (x ∷ xs) = refl
pop_front-drop (suc k) [] = refl
pop_front-drop (suc k) (x ∷ xs) = pop_front-drop k xs

drop_nil : (k : ℕ) → drop {A = QueryLogEntry} k [] ≡ []
drop_nil zero = refl
drop_nil (suc k) = refl

capacity-log : (s : MemoryLogSink) (e : QueryLogEntry) → (log s e).capacity ≡ s.capacity
unfolding log
capacity-log s e = refl

log_full :
    (s : MemoryLogSink) (e : QueryLogEntry)
    → s.capacity ≤ length s.buffer
    → (log s e).buffer ≡ pop_front s.buffer ++ (e ∷ [])
unfolding log
log_full s e h = ground arith

log_room :
    (s : MemoryLogSink) (e : QueryLogEntry)
    → length s.buffer < s.capacity
    → (log s e).buffer ≡ s.buffer ++ (e ∷ [])
unfolding log
log_room s e h = ground arith

module _ (s : MemoryLogSink) (history : List QueryLogEntry) (e : QueryLogEntry)
    (h : s.buffer ≡ last_of s.capacity history) where
  abbrev longer : List QueryLogEntry
  longer = history ++ (e ∷ [])

  length_held : length s.buffer ≡ length history - (length history - s.capacity)
  length_held = ap length h ∙ length-drop (length history - s.capacity) history

  -- A full buffer loses its oldest entry, and the end of the history moves on by one.
  last_of_full :
      0 < s.capacity → s.capacity ≤ length history → (log s e).buffer ≡ last_of s.capacity longer
  last_of_full pos full =
      let k = length history - s.capacity in
      let moved : suc k ≡ length longer - s.capacity =
        omega (arith, length-append history (e ∷ [])) in
      log_full s e (omega (arith, length_held))
      ∙ ap (λ b. pop_front b ++ (e ∷ [])) h
      ∙ ap (λ b. b ++ (e ∷ [])) (pop_front-drop k history)
      ∙ sym (drop-append (suc k) history (e ∷ []) (omega arith))
      ∙ ap (λ m. drop m longer) moved

  -- With room left the buffer holds the whole history.
  last_of_room : length history < s.capacity → (log s e).buffer ≡ last_of s.capacity longer
  last_of_room room =
      let k : length history - s.capacity ≡ 0 = omega arith in
      let moved : 0 ≡ length longer - s.capacity = omega (arith, length-append history (e ∷ [])) in
      log_room s e (omega (arith, length_held))
      ∙ ap (λ b. b ++ (e ∷ [])) (h ∙ ap (λ m. drop m history) k)
      ∙ ap (λ m. drop m longer) moved

  log-last_of : 0 < s.capacity → (log s e).buffer ≡ last_of s.capacity longer
  log-last_of pos = elim (Bool-cases (ltb (length history) s.capacity)) [
    | inl room ↦ last_of_room (ltb→lt _ _ room)
    | inr full ↦ last_of_full pos (ltb-false→le _ _ full)
  ]

log_all-last_of :
    (es : List QueryLogEntry) (s : MemoryLogSink) (history : List QueryLogEntry)
    → 0 < s.capacity
    → s.buffer ≡ last_of s.capacity history
    → (log_all s es).buffer ≡ last_of s.capacity (history ++ es)
unfolding log_all
log_all-last_of [] s history pos h = h ∙ ap (last_of s.capacity) (sym (append-nil history))
log_all-last_of (e ∷ es) s history pos h =
    let kept : (log s e).capacity ≡ s.capacity = capacity-log s e in
    log_all-last_of es (log s e) (history ++ (e ∷ [])) (rw kept pos)
      (log-last_of s history e h pos ∙ ap (λ c. last_of c (history ++ (e ∷ []))) (sym kept))
    ∙ ap (λ c. last_of c ((history ++ (e ∷ [])) ++ es)) kept
    ∙ ap (last_of s.capacity) (append_assoc history (e ∷ []) es)

-- After any entries, a sink of positive capacity holds the last entries up to that number, the
-- oldest first, and the API shows the newest of them first, up to the limit.
pub log_all-get_logs :
    (capacity limit : ℕ) (es : List QueryLogEntry)
    → 0 < capacity
    → (get_recent (log_all (new capacity) es) ≡ last_of capacity es)
      × (get_logs (log_all (new capacity) es) limit ≡ take limit (reverse (last_of capacity es)))
unfolding new get_recent get_logs
log_all-get_logs capacity limit es pos =
    let held = log_all-last_of es (new capacity) [] pos (sym (drop_nil (0 - capacity))) in
    (held, ap (λ b. take limit (reverse b)) held)
