-- ===== src/Logger/Delivery.antt =====
-- Delivery of log entries by src/logger/mod.rs: every open sink with room, in order, once.
use mathlib.Core.Path.{subst}
use ad_nope.Prelude.{
  ℕ, ◌+◌, ◌<◌, ◌≤◌, ◌≡◌, refl, sym, ◌⊎◌, get_elem?, get_elem?-map, some, true, false, List, [], ◌∷◌,
  ◌++◌, map, length, length-append, arith, All, nat_eq,
}
use ad_nope.Logger.{QueryLogEntry, Channel, channel_size, try_send, log_from, log}

log_from-map :
    (len i : ℕ) (entry : QueryLogEntry) (sinks : List Channel)
    → len ≡ i + length sinks
    → log_from len i entry sinks ≡ map (try_send entry) sinks
unfolding log_from
log_from-map len i entry [] h = refl
log_from-map len i entry (c ∷ []) h = ground arith
log_from-map len i entry (c ∷ d ∷ rest) h =
    ground (arith, log_from-map len (i + 1) entry (d ∷ rest))

-- The loop, which gives the last sink the entry and the others a clone, sends the entry once to
-- each of the sinks.
pub log-map :
    (entry : QueryLogEntry) (sinks : List Channel) → log entry sinks ≡ map (try_send entry) sinks
unfolding log
log-map entry sinks = log_from-map (length sinks) 0 entry sinks (omega arith)

abbrev pub IsBounded : Channel → Type 0
IsBounded c = length c.queue ≤ channel_size

try_send-IsBounded :
    (entry : QueryLogEntry) (c : Channel) → IsBounded c → IsBounded (try_send entry c)
unfolding try_send
try_send-IsBounded entry c h = ground (arith, length-append c.queue (entry ∷ []))

map-IsBounded :
    (entry : QueryLogEntry) (sinks : List Channel)
    → All IsBounded sinks
    → All IsBounded (map (try_send entry) sinks)
map-IsBounded entry [] h = tt
map-IsBounded entry (c ∷ cs) h = (try_send-IsBounded entry c h.0, map-IsBounded entry cs h.1)

-- If no channel holds more than its size, then none does after an entry is logged.
pub log-IsBounded :
    (entry : QueryLogEntry) (sinks : List Channel)
    → All IsBounded sinks
    → All IsBounded (log entry sinks)
log-IsBounded entry sinks h =
    subst (All IsBounded) (sym (log-map entry sinks)) (map-IsBounded entry sinks h)

-- An entry that is logged is the last one of every open channel with room, behind what it held, and
-- leaves every other channel as it was.
pub get_elem?-log :
    (entry : QueryLogEntry) (sinks : List Channel) (i : ℕ) (c : Channel)
    → get_elem? sinks i ≡ some c
    → ((c.closed ≡ false)
        × (length c.queue < channel_size)
        × (get_elem? (log entry sinks) i ≡ some (record c { queue = c.queue ++ (entry ∷ []) })))
      ⊎ (((c.closed ≡ true) ⊎ (channel_size ≤ length c.queue))
          × (get_elem? (log entry sinks) i ≡ some c))
unfolding try_send
get_elem?-log entry sinks i c h = ground (arith, at)
  where
    at : get_elem? (log entry sinks) i ≡ some (try_send entry c)
    at = rw (log-map entry sinks, get_elem?-map (try_send entry) sinks i, h) refl
