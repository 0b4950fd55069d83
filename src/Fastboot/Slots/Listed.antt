-- ===== src/Fastboot/Slots/Listed.antt =====
-- Slots among those of the device, and the plans that name them.
use mathlib.Core.List.{Mem, mem-cons_self, mem-cons_of_mem}
use kairos_boot.Base.{
  ℕ, ◌<◌, ◌≡◌, refl, Bytes, Bool-cases, inl, inr, true, false, [], ◌∷◌, ◌==◌, ==_iff, length, arith,
}
use kairos_boot.Base.Expected.{Expected, value, unexpected}
use kairos_boot.Fastboot.Slots.{
  SlotError, SlotTopology, PartitionSlotPlan, legacy_topology, has, is_valid_partition_name,
}
use kairos_boot.Fastboot.Slots.Planner.{Query, continued, listed_slot, other_slot, slot_names}
use kairos_boot.Fastboot.Slots.Planned.{Gives, IsSlot, AreSlots, IsTopology, Topologies}

pub continued-Gives :
    {W A B : Type 0} (P : A → Type 0) (Q : B → Type 0) (f : A → Query W B)
    (x : Expected A SlotError) (w : W)
    → Gives P x
    → ((a : A) (u : W) → P a → Gives Q (f a u).0)
    → Gives Q (continued f x w).0
unfolding continued Gives
continued-Gives P Q f (value a) w h k = k a w h
continued-Gives P Q f (unexpected e) w h k = tt

-- Of any value.
abbrev pub Any : {A : Type 0} → A → Type 0
Any a = Unit {0}

pub Gives-Any : {A : Type 0} (x : Expected A SlotError) → Gives Any x
unfolding Gives
Gives-Any (value a) = tt
Gives-Any (unexpected e) = tt

-- What is given is the value itself.
pub Gives-itself :
    {A : Type 0} (P : A → Type 0) (x : Expected A SlotError)
    → Gives P x
    → Gives (λ a. P a × (x ≡ value a)) x
unfolding Gives
Gives-itself P (value a) h = (h, refl)
Gives-itself P (unexpected e) h = tt

pub legacy_topology-Gives :
    (x : Expected Bytes SlotError) → Gives IsTopology x → Gives Topologies (legacy_topology x)
unfolding Gives legacy_topology
legacy_topology-Gives (value cs) h = h
legacy_topology-Gives (unexpected e) h = tt

pub has-Mem : (c : ℕ) (cs : Bytes) → has c cs ≡ true → Mem c cs
unfolding has
has-Mem c [] h = absurd (ground arith)
has-Mem c (d ∷ ds) h = elim (Bool-cases (d == c)) [
  | inl e ↦ let same : d ≡ c = (==_iff d c).0 e in rw (← same) mem-cons_self
  | inr e ↦ mem-cons_of_mem d (has-Mem c ds (ground arith))
]

-- A letter among the slots.
abbrev pub Listed : Bytes → ℕ → Type 0
Listed ts c = IsSlot c × Mem c ts

pub listed_slot-Gives :
    (t : SlotTopology) (x : Expected ℕ SlotError)
    → Gives IsSlot x
    → Gives (Listed t.slots) (listed_slot t x)
unfolding Gives listed_slot
listed_slot-Gives t (unexpected e) h = tt
listed_slot-Gives t (value c) h = elim (Bool-cases (has c t.slots)) [
  | inl e ↦ rw e (h, has-Mem c t.slots e)
  | inr e ↦ rw e tt
]

pub has-IsSlot : (c : ℕ) (cs : Bytes) → AreSlots cs → has c cs ≡ true → IsSlot c
unfolding has
has-IsSlot c [] h k = absurd (ground arith)
has-IsSlot c (d ∷ ds) h k = elim (Bool-cases (d == c)) [
  | inl e ↦ let same : d ≡ c = (==_iff d c).0 e in rw (← same) (ground arith)
  | inr e ↦ has-IsSlot c ds (ground arith) (ground arith)
]

pub other_slot-Mem : (cs : Bytes) (c : ℕ) → Mem c cs → Mem (other_slot cs c) cs
unfolding other_slot
other_slot-Mem [] c k = k
other_slot-Mem (a ∷ []) c k = k
other_slot-Mem (a ∷ b ∷ []) c k = elim (Bool-cases (a == c)) [
  | inl e ↦ rw e (mem-cons_of_mem a mem-cons_self)
  | inr e ↦ rw e mem-cons_self
]
other_slot-Mem (a ∷ b ∷ d ∷ ds) c k = k

pub other_slot-IsSlot : (cs : Bytes) (c : ℕ) → AreSlots cs → IsSlot c → IsSlot (other_slot cs c)
unfolding other_slot
other_slot-IsSlot [] c h k = k
other_slot-IsSlot (a ∷ []) c h k = k
other_slot-IsSlot (a ∷ b ∷ []) c h k = elim (Bool-cases (a == c)) [
  | inl e ↦ rw e (ground arith)
  | inr e ↦ rw e (ground arith)
]
other_slot-IsSlot (a ∷ b ∷ d ∷ ds) c h k = k

-- Slots that are all among others.
abbrev pub AreAmong : Bytes → Bytes → Type 0
AreAmong ts [] = Unit {0}
AreAmong ts (c ∷ cs) = Mem c ts × AreAmong ts cs

AreAmong-cons : (t : ℕ) (ts cs : Bytes) → AreAmong ts cs → AreAmong (t ∷ ts) cs
AreAmong-cons t ts [] h = tt
AreAmong-cons t ts (c ∷ cs) h = (mem-cons_of_mem t h.0, AreAmong-cons t ts cs h.1)

pub AreAmong-refl : (ts : Bytes) → AreAmong ts ts
AreAmong-refl [] = tt
AreAmong-refl (t ∷ ts) = (mem-cons_self, AreAmong-cons t ts ts (AreAmong-refl ts))

-- Slots that were resolved: letters, one at least, and all among those of the device.
abbrev pub IsResolved : Bytes → Bytes → Type 0
IsResolved ts cs = AreSlots cs × (0 < length cs) × AreAmong ts cs

-- A plan for a partition, where `found` is what the device's answers say of its slots: its names are those in the
-- slots of the plan, which are letters, one at least, and all among those of the device; without slots it is
-- the partition itself.
pub record IsPlanned (found : Expected SlotTopology SlotError) (partition : Bytes)
    (plan : PartitionSlotPlan) : Type 0 where
  pub valid : is_valid_partition_name partition ≡ true
  pub slotted :
      plan.slotted ≡ true
      → (t : SlotTopology) × (found ≡ value t)
        × (plan.partition_names ≡ slot_names partition plan.slots)
        × IsResolved t.slots plan.slots
  pub whole : plan.slotted ≡ false → (plan.partition_names ≡ partition ∷ []) × (plan.slots ≡ [])

pub slots-IsPlanned :
    (t : SlotTopology) (partition slots : Bytes)
    → is_valid_partition_name partition ≡ true
    → IsResolved t.slots slots
    → IsPlanned
        (value t)
        partition
        (record { slotted = true; partition_names = slot_names partition slots; slots = slots })
slots-IsPlanned t partition slots v k = record {
  valid = v;
  slotted = λ e. (t, refl, refl, k);
  whole = λ e. absurd (ground arith);
}
