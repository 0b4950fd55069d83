-- ===== src/Fastboot/Slots/Planned.antt =====
-- The slots that the parsers of `SlotPlanner` give.
use kairos_boot.Base.{
  ℕ, zero, suc, ◌+◌, ◌≤◌, ◌≡◌, refl, Bytes, Bool, Bool-cases, inl, inr, true, ◌&&◌, List, [], ◌∷◌,
  ltb, leb, ◌==◌, length, arith,
}
use kairos_boot.Base.Expected.{Expected, value, unexpected}
use kairos_boot.Base.Chars.{FromChars, parsed, invalid_argument, result_out_of_range}
use kairos_boot.Fastboot.Slots.{
  SlotErrorCode, SlotError, SlotTopology, is_letter, one_letter, normalize_slot_name, slot_in_front,
  normalized_with, normalized_tokens, insert_slot, sort_slots, has_adjacent, checked_suffixes,
  letters_from, counted_topology,
}

-- A result that is right where there is one.
unfoldable pub Gives : {A : Type 0} → (A → Type 0) → Expected A SlotError → Type 0
Gives P (value a) = P a
Gives P (unexpected e) = Unit {0}

abbrev pub are_letters : Bytes → Bool
are_letters [] = true
are_letters (c ∷ cs) = is_letter c && are_letters cs

abbrev pub IsSlot : ℕ → Type 0
IsSlot c = is_letter c ≡ true

abbrev pub AreSlots : Bytes → Type 0
AreSlots cs = are_letters cs ≡ true

one_letter-Gives :
    (code : SlotErrorCode) (context cs : Bytes) → Gives IsSlot (one_letter code context cs)
unfolding Gives one_letter
one_letter-Gives code context [] = tt
one_letter-Gives code context (c ∷ []) = elim (Bool-cases (is_letter c)) [
  | inl e ↦ rw e e
  | inr e ↦ rw e tt
]
one_letter-Gives code context (c ∷ d ∷ cs) = tt

pub normalize_slot_name-Gives :
    (cs : Bytes) (code : SlotErrorCode) (context : Bytes)
    → Gives IsSlot (normalize_slot_name cs code context)
unfolding normalize_slot_name
normalize_slot_name-Gives [] code context = one_letter-Gives code context []
normalize_slot_name-Gives (c ∷ cs) code context = elim (Bool-cases (c == b'_')) [
  | inl e ↦ rw e (one_letter-Gives code context cs)
  | inr e ↦ rw e (one_letter-Gives code context (c ∷ cs))
]

normalized_with-Gives :
    (x : Expected ℕ SlotError) (rest : Expected Bytes SlotError)
    → Gives IsSlot x
    → Gives AreSlots rest
    → Gives AreSlots (normalized_with x rest)
unfolding Gives normalized_with slot_in_front
normalized_with-Gives (value c) (value cs) h k = ground arith
normalized_with-Gives (value c) (unexpected e) h k = tt
normalized_with-Gives (unexpected e) rest h k = tt

pub normalized_tokens-Gives : (ts : List Bytes) → Gives AreSlots (normalized_tokens ts)
unfolding normalized_tokens
normalized_tokens-Gives [] = unfold Gives in refl
normalized_tokens-Gives (t ∷ ts) =
    normalized_with-Gives _ _ (normalize_slot_name-Gives t _ _) (normalized_tokens-Gives ts)

insert_slot-AreSlots : (c : ℕ) (cs : Bytes) → IsSlot c → AreSlots cs → AreSlots (insert_slot c cs)
unfolding insert_slot
insert_slot-AreSlots c [] h k = ground arith
insert_slot-AreSlots c (d ∷ ds) h k = elim (Bool-cases (leb c d)) [
  | inl e ↦ rw e (ground arith)
  | inr e ↦ rw e (ground (arith, insert_slot-AreSlots c ds))
]

sort_slots-AreSlots : (cs : Bytes) → AreSlots cs → AreSlots (sort_slots cs)
unfolding sort_slots
sort_slots-AreSlots [] h = refl
sort_slots-AreSlots (c ∷ cs) h =
    insert_slot-AreSlots c (sort_slots cs) (ground arith) (sort_slots-AreSlots cs (ground arith))

length-insert_slot : (c : ℕ) (cs : Bytes) → length (insert_slot c cs) ≡ suc (length cs)
unfolding insert_slot
length-insert_slot c [] = refl
length-insert_slot c (d ∷ ds) = ground (arith, length-insert_slot c ds)

length-sort_slots : (cs : Bytes) → length (sort_slots cs) ≡ length cs
unfolding sort_slots
length-sort_slots [] = refl
length-sort_slots (c ∷ cs) =
    omega (arith, length-insert_slot c (sort_slots cs), length-sort_slots cs)

-- The slots of a topology: letters, and at least two.
abbrev pub IsTopology : Bytes → Type 0
IsTopology cs = AreSlots cs × (2 ≤ length cs)

pub checked_suffixes-Gives :
    (x : Expected Bytes SlotError) → Gives AreSlots x → Gives IsTopology (checked_suffixes x)
unfolding Gives checked_suffixes
checked_suffixes-Gives (unexpected e) h = tt
checked_suffixes-Gives (value cs) h = elim (Bool-cases (ltb (length cs) 2)) [
  | inl e ↦ rw e tt
  | inr e ↦ elim (Bool-cases (ltb 26 (length cs))) [
    | inl f ↦ rw (e, f) tt
    | inr f ↦ elim (Bool-cases (has_adjacent (sort_slots cs))) [
      | inl g ↦ rw (e, f, g) tt
      | inr g ↦ rw (e, f, g) (sort_slots-AreSlots cs h, ground (arith, length-sort_slots cs))
    ]
  ]
]

letters_from-AreSlots : (n c : ℕ) → 97 ≤ c → n + c ≤ 123 → AreSlots (letters_from n c)
unfolding letters_from
letters_from-AreSlots zero c h k = refl
letters_from-AreSlots (suc n) c h k = ground (arith, letters_from-AreSlots n (suc c))

length-letters_from : (n c : ℕ) → length (letters_from n c) ≡ n
unfolding letters_from
length-letters_from zero c = refl
length-letters_from (suc n) c = omega (arith, length-letters_from n (suc c))

abbrev pub Topologies : SlotTopology → Type 0
Topologies t = IsTopology t.slots

pub counted_topology-Gives : (x : FromChars) → Gives Topologies (counted_topology x)
unfolding Gives counted_topology
counted_topology-Gives (parsed n (c ∷ cs)) = tt
counted_topology-Gives invalid_argument = tt
counted_topology-Gives (result_out_of_range rest) = tt
counted_topology-Gives (parsed n []) = elim (Bool-cases (ltb n 2)) [
  | inl e ↦ rw e tt
  | inr e ↦ elim (Bool-cases (ltb 26 n)) [
    | inl f ↦ rw (e, f) tt
    | inr f ↦
        rw (e, f)
          (
            letters_from-AreSlots n 97 (omega arith) (ground arith),
            ground (arith, length-letters_from n 97),
          )
  ]
]
