-- ===== src/Events/Ring.antt =====
-- The events that src/common/EventStorage.cpp keeps, and what src/common/Event.cpp reads of one.
use flight_software.Base.{
  ℕ, zero, suc, ◌+◌, ◌-◌, ◌/◌, ◌^◌, ◌≤◌, ◌<◌, ◌≡◌, ◌≢◌, refl, sym, ap, ◌∙◌, Bool, ◌==◌, ltb,
  if◌then◌else◌, List, [], ◌∷◌, ◌++◌, length, get_or, set, length-set, get_or-set_self, arith,
  subst,
}
use native.Mathlib.Nat.{pow-suc}
use flight_software.Events.{
  bits_of, to_ulong, take, drop, append_fields, serialize, split_fields, deserialize, EventStorage,
  signal,
}

to_ulong-bits_of : (k n : ℕ) → n < 2 ^ k → to_ulong (bits_of k n) ≡ n
unfolding to_ulong bits_of
to_ulong-bits_of zero n lt = omega (arith, lt)
to_ulong-bits_of (suc k) n lt =
    ground (arith, to_ulong-bits_of k (n / 2) (omega (arith, lt, pow-suc 2 k)))

length-bits_of : (k n : ℕ) → length (bits_of k n) ≡ k
unfolding bits_of
length-bits_of zero n = refl
length-bits_of (suc k) n = ap suc (length-bits_of k (n / 2))

take-length : (xs ys : List Bool) → take (length xs) (xs ++ ys) ≡ xs
unfolding take
take-length [] ys = refl
take-length (x ∷ xs) ys = ap (λ l. x ∷ l) (take-length xs ys)

drop-length : (xs ys : List Bool) → drop (length xs) (xs ++ ys) ≡ ys
unfolding drop
drop-length [] ys = refl
drop-length (x ∷ xs) ys = drop-length xs ys

abbrev pub lengths : List (List Bool) → List ℕ
lengths [] = []
lengths (field ∷ fields) = length field ∷ lengths fields

split_fields-append_fields :
    (fields : List (List Bool)) → split_fields (lengths fields) (append_fields fields) ≡ fields
unfolding split_fields append_fields
split_fields-append_fields [] = refl
split_fields-append_fields (field ∷ fields) =
    ap
      (λ f. f ∷ split_fields (lengths fields) (drop (length field) (field ++ append_fields fields)))
      (take-length field (append_fields fields))
    ∙ ap (λ rest. field ∷ split_fields (lengths fields) rest)
        (drop-length field (append_fields fields))
    ∙ ap (λ rest. field ∷ rest) (split_fields-append_fields fields)

-- An event's data is read as it was written: the control cycle, below 2^32, and the bits of each
-- field.
deserialize-serialize :
    (ccno : ℕ) (fields : List (List Bool))
    → ccno < 2 ^ 32
    → deserialize (lengths fields) (serialize ccno fields) ≡ (ccno, fields)
unfolding deserialize serialize
deserialize-serialize ccno fields lt =
    ap
      (λ bits. (
        to_ulong bits,
        split_fields (lengths fields) (drop 32 (bits_of 32 ccno ++ append_fields fields)),
      ))
      head
    ∙ ap (λ rest. (to_ulong (bits_of 32 ccno), split_fields (lengths fields) rest)) tail
    ∙ ap (λ n. (n, split_fields (lengths fields) (append_fields fields)))
        (to_ulong-bits_of 32 ccno lt)
    ∙ ap (λ fs. (ccno, fs)) (split_fields-append_fields fields)
  where
    head : take 32 (bits_of 32 ccno ++ append_fields fields) ≡ bits_of 32 ccno
    head =
        ap (λ k. take k (bits_of 32 ccno ++ append_fields fields)) (sym (length-bits_of 32 ccno))
        ∙ take-length (bits_of 32 ccno) (append_fields fields)

    tail : drop 32 (bits_of 32 ccno ++ append_fields fields) ≡ append_fields fields
    tail =
        ap (λ k. drop k (bits_of 32 ccno ++ append_fields fields)) (sym (length-bits_of 32 ccno))
        ∙ drop-length (bits_of 32 ccno) (append_fields fields)

get_or-set_other :
    {A : Type 0} (xs : List A) (i j : ℕ) (v d : A) → i ≢ j → get_or (set xs i v) j d ≡ get_or xs j d
get_or-set_other [] i j v d h = refl
get_or-set_other (x ∷ xs) zero zero v d h = absurd (h refl)
get_or-set_other (x ∷ xs) zero (suc j) v d h = refl
get_or-set_other (x ∷ xs) (suc i) zero v d h = refl
get_or-set_other (x ∷ xs) (suc i) (suc j) v d h = get_or-set_other xs i j v d (λ e. h (ap suc e))

-- Some events, one after the other, each a control cycle with the fields.
unfoldable pub signals : List (ℕ × List (List Bool)) → EventStorage → EventStorage
signals [] s = s
signals (e ∷ es) s = signals es (signal e.0 e.1 s)

-- The slot that lies `d` behind slot `p`.
abbrev behind : ℕ → ℕ → ℕ → ℕ
behind size p d = if ltb (p + d) size then p + d else p + d - size

signal_other :
    (ccno : ℕ) (fields : List (List Bool)) (s : EventStorage) (p d : ℕ)
    → p < length s.sub_events
    → 0 < d
    → d < length s.sub_events
    → s.event_ptr ≡ behind (length s.sub_events) p d
    → (get_or (signal ccno fields s).sub_events p [] ≡ get_or s.sub_events p [])
      × ((signal ccno fields s).event_ptr ≡ behind (length s.sub_events) p (d + 1))
unfolding signal
signal_other ccno fields s p d lt pos small here = (
  get_or-set_other s.sub_events s.event_ptr p (serialize ccno fields) []
      (ground (arith, lt, pos, small, here)),
  moved (length s.sub_events) s.event_ptr lt small here,
)
  where
    moved :
        (size ptr : ℕ)
        → p < size
        → d < size
        → ptr ≡ behind size p d
        → (if ptr + 1 == size then 0 else ptr + 1) ≡ behind size p (d + 1)
    moved size ptr lt small here = ground (arith, lt, small, here)

length-signal :
    (ccno : ℕ) (fields : List (List Bool)) (s : EventStorage)
    → length (signal ccno fields s).sub_events ≡ length s.sub_events
unfolding signal
length-signal ccno fields s = length-set s.sub_events s.event_ptr (serialize ccno fields)

signals_other :
    (es : List (ℕ × List (List Bool))) (s : EventStorage) (p d : ℕ)
    → p < length s.sub_events
    → 0 < d
    → d + length es ≤ length s.sub_events
    → s.event_ptr ≡ behind (length s.sub_events) p d
    → get_or (signals es s).sub_events p [] ≡ get_or s.sub_events p []
unfolding signals
signals_other [] s p d lt pos small here = refl
signals_other (e ∷ es) s p d lt pos small here =
    signals_other es (signal e.0 e.1 s) p (d + 1) (subst (λ k. p < k) (sym size) lt) (omega arith)
      (omega (arith, small, size)) (step.1 ∙ ap (λ k. behind k p (d + 1)) (sym size))
    ∙ step.0
  where
    size : length (signal e.0 e.1 s).sub_events ≡ length s.sub_events
    size = length-signal e.0 e.1 s

    step :
        (get_or (signal e.0 e.1 s).sub_events p [] ≡ get_or s.sub_events p [])
        × ((signal e.0 e.1 s).event_ptr ≡ behind (length s.sub_events) p (d + 1))
    step = signal_other e.0 e.1 s p d lt pos (omega (arith, small)) here

signal_stored :
    (ccno : ℕ) (fields : List (List Bool)) (s : EventStorage)
    → s.event_ptr < length s.sub_events
    → get_or (signal ccno fields s).sub_events s.event_ptr [] ≡ serialize ccno fields
unfolding signal
signal_stored ccno fields s lt =
    get_or-set_self s.sub_events s.event_ptr (serialize ccno fields) [] lt

signal_ptr :
    (ccno : ℕ) (fields : List (List Bool)) (s : EventStorage)
    → s.event_ptr < length s.sub_events
    → (signal ccno fields s).event_ptr ≡ behind (length s.sub_events) s.event_ptr 1
unfolding signal
signal_ptr ccno fields s lt = ground (arith, lt)

-- A stored event is still in its slot, as it was written, after any further events that are fewer
-- than the slots.
pub signal_kept :
    (ccno : ℕ) (fields : List (List Bool)) (es : List (ℕ × List (List Bool))) (s : EventStorage)
    → s.event_ptr < length s.sub_events
    → length es < length s.sub_events
    → get_or (signals es (signal ccno fields s)).sub_events s.event_ptr [] ≡ serialize ccno fields
signal_kept ccno fields es s lt few =
    signals_other es (signal ccno fields s) s.event_ptr 1
      (subst (λ k. s.event_ptr < k) (sym size) lt) (omega arith) (omega (arith, few, size))
      (next ∙ ap (λ k. behind k s.event_ptr 1) (sym size))
    ∙ stored
  where
    size : length (signal ccno fields s).sub_events ≡ length s.sub_events
    size = length-signal ccno fields s

    next : (signal ccno fields s).event_ptr ≡ behind (length s.sub_events) s.event_ptr 1
    next = signal_ptr ccno fields s lt

    stored : get_or (signal ccno fields s).sub_events s.event_ptr [] ≡ serialize ccno fields
    stored = signal_stored ccno fields s lt
