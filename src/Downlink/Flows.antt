-- ===== src/Downlink/Flows.antt =====
-- The flows of src/fsw/FCCode/DownlinkProducer.cpp: the size of a downlink, switching a flow on and off,
-- and the order of the flows. The result is nothing where the code asserts false.
use flight_software.Base.{
  ℕ, zero, suc, ◌+◌, ◌-◌, ◌/◌, ◌≤◌, ◌<◌, ◌≡◌, refl, ap, ◌∙◌, Bool, not, ◌&&◌, ◌||◌, ltb, leb, ◌==◌,
  if◌then◌else◌, List, [], ◌∷◌, Option, none, some, length, get_or, set, length-set, arith,
}
use flight_software.Downlink.{BitArray, Flow, num_bits_in_packet}

unfoldable pub fields_size : List BitArray → ℕ
fields_size [] = 0
fields_size (field ∷ fields) = field.size + fields_size fields

unfoldable pub get_packet_size : Flow → ℕ
get_packet_size flow = flow.id_bits.size + fields_size flow.field_list

unfoldable pub flows_size : Bool → List Flow → ℕ
flows_size compute_max [] = 0
flows_size compute_max (flow ∷ flows) =
    (if flow.is_active || compute_max then get_packet_size flow else 0)
    + flows_size compute_max flows

unfoldable pub compute_downlink_size : Bool → List Flow → ℕ
compute_downlink_size compute_max flows =
    let bits = flows_size compute_max flows + 32 in
    (bits + (bits + num_bits_in_packet - 1) / num_bits_in_packet + 7) / 8

-- The loop of `toggle_flow`, which ends at the first flow with the id.
unfoldable pub toggle : ℕ → List Flow → List Flow
toggle id [] = []
toggle id (flow ∷ flows) =
    if flow.id == id
    then record flow { is_active = not flow.is_active } ∷ flows
    else flow ∷ toggle id flows

unfoldable pub toggle_flow : ℕ → List Flow → Option (List Flow)
toggle_flow id flows = if ltb (length flows) id then none else some (toggle id flows)

-- The loop that looks an id up: the last index with it, or the index before.
unfoldable pub find_index : ℕ → ℕ → List Flow → ℕ → ℕ
find_index id idx [] found = found
find_index id idx (flow ∷ flows) found =
    find_index id (idx + 1) flows (if flow.id == id then idx else found)

-- std::swap of the elements at `i` and `i + 1`; the default is for an index out of range.
unfoldable pub swap_next {ℓ} : {A : Type ℓ} → A → ℕ → List A → List A
swap_next d i xs = set (set xs i (get_or xs (i + 1) d)) (i + 1) (get_or xs i d)

-- The two loops, by the rounds left, from index `i` on.
unfoldable pub move_front {ℓ} : {A : Type ℓ} → A → ℕ → ℕ → List A → List A
move_front d zero i xs = xs
move_front d (suc n) i xs = move_front d n (i - 1) (swap_next d (i - 1) xs)

unfoldable pub move_back {ℓ} : {A : Type ℓ} → A → ℕ → ℕ → List A → List A
move_back d zero i xs = xs
move_back d (suc n) i xs = move_back d n (i + 1) (swap_next d i xs)

unfoldable pub move {ℓ} : {A : Type ℓ} → A → ℕ → ℕ → List A → List A
move d idx1 idx2 xs =
    if ltb idx2 idx1
    then move_front d (idx1 - idx2) idx1 xs
    else if ltb idx1 idx2
    then move_back d (idx2 - idx1) idx1 xs
    else xs

unfoldable pub shift_flow_priorities : Flow → ℕ → ℕ → List Flow → Option (List Flow)
shift_flow_priorities d id1 id2 flows =
    if ltb (length flows) id1 || ltb (length flows) id2
    then none
    else some (move d (find_index id1 0 flows 0) (find_index id2 0 flows 0) flows)

-- The fields in which the ground asks for a change of the flows, 0 for nothing.
pub record Requests : Type 0 where
  pub shift_flows_id1 : ℕ
  pub shift_flows_id2 : ℕ
  pub toggle_flow_id : ℕ

unfoldable pub handle_shift : Flow → Requests → List Flow → Option (Requests × List Flow)
handle_shift d r flows =
    if ltb 0 r.shift_flows_id1 && ltb 0 r.shift_flows_id2
    then elim (shift_flow_priorities d r.shift_flows_id1 r.shift_flows_id2 flows) [
      | none ↦ none
      | some flows' ↦ some (record r { shift_flows_id1 = 0; shift_flows_id2 = 0 }, flows')
    ]
    else some (r, flows)

unfoldable pub handle_toggle : Requests → List Flow → Option (Requests × List Flow)
handle_toggle r flows =
    if ltb 0 r.toggle_flow_id
    then elim (toggle_flow r.toggle_flow_id flows) [
      | none ↦ none
      | some flows' ↦ some (record r { toggle_flow_id = 0 }, flows')
    ]
    else some (r, flows)

-- The end of `execute`.
unfoldable pub handle_requests : Flow → Requests → List Flow → Option (Requests × List Flow)
handle_requests d r flows = elim (handle_shift d r flows) [
  | none ↦ none
  | some (r', flows') ↦ handle_toggle r' flows'
]

module _ {A : Type 0} where
  get_or-set :
      (xs : List A) (i j : ℕ) (v d : A)
      → i < length xs
      → get_or (set xs i v) j d ≡ (if j == i then v else get_or xs j d)
  get_or-set [] i j v d h = absurd (omega (arith, h))
  get_or-set (x ∷ xs) zero zero v d h = refl
  get_or-set (x ∷ xs) zero (suc j) v d h = ground arith
  get_or-set (x ∷ xs) (suc i) zero v d h = ground arith
  get_or-set (x ∷ xs) (suc i) (suc j) v d h =
      get_or-set xs i j v d (omega (arith, h)) ∙ ground arith

  get_or-swap_next :
      (d : A) (i j : ℕ) (xs : List A)
      → i + 1 < length xs
      → get_or (swap_next d i xs) j d ≡ (
          if j == i + 1
          then get_or xs i d
          else if j == i
          then get_or xs (i + 1) d
          else get_or xs j d)
  unfolding swap_next
  get_or-swap_next d i j xs h =
      get_or-set (set xs i (get_or xs (i + 1) d)) (i + 1) j (get_or xs i d) d
        (omega (arith, h, length-set xs i (get_or xs (i + 1) d)))
      ∙ ap (λ b. if j == i + 1 then get_or xs i d else b)
          (get_or-set xs i j (get_or xs (i + 1) d) d (omega (arith, h)))

  length-swap_next : (d : A) (i : ℕ) (xs : List A) → length (swap_next d i xs) ≡ length xs
  unfolding swap_next
  length-swap_next d i xs =
      length-set (set xs i (get_or xs (i + 1) d)) (i + 1) (get_or xs i d)
      ∙ length-set xs i (get_or xs (i + 1) d)

  -- The elements after a swap, and after the rounds behind it.
  front_round :
      (f g : ℕ → A) (n i j : ℕ)
      → suc n ≤ i
      → ((q : ℕ)
          → g q ≡ (if q == i - 1 + 1 then f (i - 1) else if q == i - 1 then f (i - 1 + 1) else f q))
      → (if j == i - 1 - n
          then g (i - 1)
          else if ltb (i - 1 - n) j && leb j (i - 1)
          then g (j - 1)
          else g j)
        ≡ (if j == i - suc n then f i else if ltb (i - suc n) j && leb j i then f (j - 1) else f j)
  front_round f g n i j le swapped = ground (arith, le, swapped (i - 1), swapped (j - 1), swapped j)

  get_or-move_front :
      (d : A) (n i j : ℕ) (xs : List A)
      → n ≤ i
      → i < length xs
      → get_or (move_front d n i xs) j d ≡ (
          if j == i - n
          then get_or xs i d
          else if ltb (i - n) j && leb j i
          then get_or xs (j - 1) d
          else get_or xs j d)
  unfolding move_front
  get_or-move_front d zero i j xs le lt = ground arith
  get_or-move_front d (suc n) i j xs le lt =
      get_or-move_front d n (i - 1) j (swap_next d (i - 1) xs) (omega (arith, le))
        (omega (arith, lt, length-swap_next d (i - 1) xs))
      ∙ front_round (λ q. get_or xs q d) (λ q. get_or (swap_next d (i - 1) xs) q d) n i j le
          (λ q. get_or-swap_next d (i - 1) q xs (omega (arith, le, lt)))

  back_round :
      (f g : ℕ → A) (n i j : ℕ)
      → ((q : ℕ) → g q ≡ (if q == i + 1 then f i else if q == i then f (i + 1) else f q))
      → (if j == i + 1 + n
          then g (i + 1)
          else if leb (i + 1) j && ltb j (i + 1 + n)
          then g (j + 1)
          else g j)
        ≡ (if j == i + suc n then f i else if leb i j && ltb j (i + suc n) then f (j + 1) else f j)
  back_round f g n i j swapped = ground (arith, swapped (i + 1), swapped (j + 1), swapped j)

  get_or-move_back :
      (d : A) (n i j : ℕ) (xs : List A)
      → i + n < length xs
      → get_or (move_back d n i xs) j d ≡ (
          if j == i + n
          then get_or xs i d
          else if leb i j && ltb j (i + n)
          then get_or xs (j + 1) d
          else get_or xs j d)
  unfolding move_back
  get_or-move_back d zero i j xs lt = ground arith
  get_or-move_back d (suc n) i j xs lt =
      get_or-move_back d n (i + 1) j (swap_next d i xs) (omega (arith, lt, length-swap_next d i xs))
      ∙ back_round (λ q. get_or xs q d) (λ q. get_or (swap_next d i xs) q d) n i j
          (λ q. get_or-swap_next d i q xs (omega (arith, lt)))

  -- What the swaps of shift_flow_priorities do, for two indices in range: the element of the first is at
  -- the second, those between have moved by one place towards the first, and the others are where they
  -- were.
  pub get_or-move :
      (d : A) (idx1 idx2 j : ℕ) (xs : List A)
      → idx1 < length xs
      → idx2 < length xs
      → get_or (move d idx1 idx2 xs) j d ≡ (
          if j == idx2
          then get_or xs idx1 d
          else if leb idx2 j && leb j idx1
          then get_or xs (j - 1) d
          else if leb idx1 j && leb j idx2
          then get_or xs (j + 1) d
          else get_or xs j d)
  unfolding move
  get_or-move d idx1 idx2 j xs lt lt' = ground (
    arith,
    lt,
    lt',
    get_or-move_front d (idx1 - idx2) idx1 j xs,
    get_or-move_back d (idx2 - idx1) idx1 j xs,
  )
