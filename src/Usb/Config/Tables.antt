-- ===== src/Usb/Config/Tables.antt =====
-- Stores into the tables of handlers.
use fw_bootloader.Common.{
  true-false, ℕ, zero, suc, ◌<◌, ◌≤◌, ◌≡◌, ◌∙◌, refl, ap, sym, subst, List, [], ◌∷◌, false,
  Bool-cases, ◌⊎◌, inl, inr, Option, some, if◌then◌else◌, length, get_elem?, bit_and, arith,
}
use fw_bootloader.Common.Memory.{Result, ok, fault}
use fw_bootloader.Hal.{any}
use fw_bootloader.Usb.{Handler, hid_handler, Usb, usb_dir_in}
use fw_bootloader.Usb.Config.{set_entry, usb_g_set_intr_hander, max_ep}

-- A table with one entry stored.
abbrev pub with_entry : List (Option Handler) → ℕ → Option Handler → List (Option Handler)
with_entry [] i h = []
with_entry (x ∷ xs) zero h = h ∷ xs
with_entry (x ∷ xs) (suc i) h = x ∷ with_entry xs i h

pub set_entry-ok :
    (table : List (Option Handler)) (i : ℕ) (h : Option Handler)
    → i < length table
    → set_entry table i h ≡ ok (with_entry table i h)
set_entry-ok [] i h lt = absurd (omega arith)
set_entry-ok (x ∷ xs) zero h lt = refl
set_entry-ok (x ∷ xs) (suc i) h lt = rw (set_entry-ok xs i h (omega arith)) refl

pub set_entry-fault :
    (table : List (Option Handler)) (i : ℕ) (h : Option Handler)
    → length table ≤ i
    → set_entry table i h ≡ fault
set_entry-fault [] i h le = refl
set_entry-fault (x ∷ xs) zero h le = absurd (omega arith)
set_entry-fault (x ∷ xs) (suc i) h le = rw (set_entry-fault xs i h (omega arith)) refl

pub length-with_entry :
    (table : List (Option Handler)) (i : ℕ) (h : Option Handler)
    → length (with_entry table i h) ≡ length table
length-with_entry [] i h = refl
length-with_entry (x ∷ xs) zero h = refl
length-with_entry (x ∷ xs) (suc i) h = ap suc (length-with_entry xs i h)

pub get_elem?-with_entry :
    (table : List (Option Handler)) (i : ℕ) (h : Option Handler)
    → i < length table
    → get_elem? (with_entry table i h) i ≡ some h
get_elem?-with_entry [] i h lt = absurd (omega arith)
get_elem?-with_entry (x ∷ xs) zero h lt = refl
get_elem?-with_entry (x ∷ xs) (suc i) h lt = get_elem?-with_entry xs i h (omega arith)

-- The two tables have an entry for each endpoint.
abbrev pub FullTables : Usb → Type 0
FullTables u = (length u.usb_interrupt_tx ≡ max_ep) × (length u.usb_interrupt_rx ≡ max_ep)

below_or : (a b : ℕ) → (a < b) ⊎ (b ≤ a)
below_or a b = ground arith

-- The table that an endpoint address selects, and the index in it.
abbrev pub stored : ℕ → Option Handler → Usb → Usb
stored ep h u =
    if any ep usb_dir_in
    then record u { usb_interrupt_tx = with_entry u.usb_interrupt_tx (bit_and ep 0xf) h }
    else record u { usb_interrupt_rx = with_entry u.usb_interrupt_rx ep h }

abbrev pub table_index : ℕ → ℕ
table_index ep = if any ep usb_dir_in then bit_and ep 0xf else ep

-- The number is inside the table.
pub usb_g_set_intr_hander-ok :
    (ep : ℕ) (h : Option Handler) (u : Usb)
    → FullTables u
    → table_index ep < 5
    → usb_g_set_intr_hander ep h u ≡ ok (stored ep h u)
unfolding usb_g_set_intr_hander
usb_g_set_intr_hander-ok ep h u full lt = elim (Bool-cases (any ep usb_dir_in)) [
  | inl t ↦
      let below : bit_and ep 0xf < 5 = rw t at lt in
      rw (t, set_entry-ok u.usb_interrupt_tx (bit_and ep 0xf) h (omega (arith, below, full.0))) refl
  | inr t ↦
      let below : ep < 5 = rw t at lt in
      rw (t, set_entry-ok u.usb_interrupt_rx ep h (omega (arith, below, full.1))) refl
]

usb_g_set_intr_hander-fault :
    (ep : ℕ) (h : Option Handler) (u : Usb)
    → FullTables u
    → 5 ≤ table_index ep
    → usb_g_set_intr_hander ep h u ≡ fault
unfolding usb_g_set_intr_hander
usb_g_set_intr_hander-fault ep h u full le = elim (Bool-cases (any ep usb_dir_in)) [
  | inl t ↦
      let above : 5 ≤ bit_and ep 0xf = rw t at le in
      rw (t, set_entry-fault u.usb_interrupt_tx (bit_and ep 0xf) h (omega (arith, above, full.0)))
        refl
  | inr t ↦
      let above : 5 ≤ ep = rw t at le in
      rw (t, set_entry-fault u.usb_interrupt_rx ep h (omega (arith, above, full.1))) refl
]

-- On tables of five entries, a handler for an endpoint of number 0 to 4 is stored in the table of its
-- direction at its number, and nothing else changes; for a larger number the store is outside the table:
-- the code has no check, and a number with the direction bit is only reduced to four bits.
pub usb_g_set_intr_hander_lem :
    (ep : ℕ) (h : Option Handler) (u : Usb)
    → FullTables u
    → ((table_index ep < 5) × (usb_g_set_intr_hander ep h u ≡ ok (stored ep h u)))
      ⊎ ((5 ≤ table_index ep) × (usb_g_set_intr_hander ep h u ≡ fault))
usb_g_set_intr_hander_lem ep h u full = elim (below_or (table_index ep) 5) [
  | inl lt ↦ inl (lt, usb_g_set_intr_hander-ok ep h u full lt)
  | inr le ↦ inr (le, usb_g_set_intr_hander-fault ep h u full le)
]

pub stored-FullTables :
    (ep : ℕ) (h : Option Handler) (u : Usb) → FullTables u → FullTables (stored ep h u)
stored-FullTables ep h u full = elim (Bool-cases (any ep usb_dir_in)) [
  | inl t ↦ rw t (length-with_entry u.usb_interrupt_tx (bit_and ep 0xf) h ∙ full.0, full.1)
  | inr t ↦ rw t (full.0, length-with_entry u.usb_interrupt_rx ep h ∙ full.1)
]

get_elem?-with_entry_cases :
    (table : List (Option Handler)) (i : ℕ) (h : Option Handler) (k : ℕ) {x : Option Handler}
    → get_elem? (with_entry table i h) k ≡ some x
    → ((k ≡ i) × (x ≡ h)) ⊎ (get_elem? table k ≡ some x)
get_elem?-with_entry_cases [] i h k e = cc
get_elem?-with_entry_cases (y ∷ ys) zero h zero e = inl (refl, cc)
get_elem?-with_entry_cases (y ∷ ys) zero h (suc k) e = inr e
get_elem?-with_entry_cases (y ∷ ys) (suc i) h zero e = inr e
get_elem?-with_entry_cases (y ∷ ys) (suc i) h (suc k) e =
    elim (get_elem?-with_entry_cases ys i h k e) [
      | inl same ↦ inl (ap suc same.0, same.1)
      | inr old ↦ inr old
    ]

-- Where the handler of hid.c may stand: at endpoint 2 of the receive table only.
abbrev pub HidAt : (ℕ → Type 0) → List (Option Handler) → Type 0
HidAt P table = (k : ℕ) → get_elem? table k ≡ some (some hid_handler) → P k

-- The two pointers of the stack have room for what is stored through them.
abbrev pub Room : Usb → Type 0
Room u = (0 < length u.setup_buffer) × (8 < length u.payload)

abbrev pub Wired : Usb → Type 0
Wired u =
    FullTables u
    × (HidAt (λ k. ⊥) u.usb_interrupt_tx × (HidAt (λ k. k ≡ 2) u.usb_interrupt_rx × Room u))

with_entry-HidAt :
    {P : ℕ → Type 0} (table : List (Option Handler)) (i : ℕ) (h : Option Handler)
    → HidAt P table
    → (h ≡ some hid_handler → P i)
    → HidAt P (with_entry table i h)
with_entry-HidAt {P} table i h old new k e = elim (get_elem?-with_entry_cases table i h k e) [
  | inl same ↦ subst P (sym same.0) (new (sym same.1))
  | inr e' ↦ old k e'
]

-- A handler that may be stored under an endpoint address: that of hid.c only for reception at endpoint 2.
abbrev pub MayStore : ℕ → Option Handler → Type 0
MayStore ep h = h ≡ some hid_handler → (any ep usb_dir_in ≡ false) × (ep ≡ 2)

pub stored-Wired :
    (ep : ℕ) (h : Option Handler) (u : Usb) → MayStore ep h → Wired u → Wired (stored ep h u)
stored-Wired ep h u may (full, (no_tx, (at_2, room))) =
    let all = stored-FullTables ep h u full in
    elim (Bool-cases (any ep usb_dir_in)) [
      | inl t ↦
          let refuted : h ≡ some hid_handler → ⊥ = λ e. true-false (sym t ∙ (may e).0) in
          (
            all,
            (
              rw t (with_entry-HidAt u.usb_interrupt_tx (bit_and ep 0xf) h no_tx refuted),
              (rw t at_2, rw t room),
            ),
          )
      | inr t ↦ (
        all,
        (
          rw t no_tx,
          (rw t (with_entry-HidAt u.usb_interrupt_rx ep h at_2 (λ e. (may e).1)), rw t room),
        ),
      )
    ]

pub stored-new_data :
    (ep : ℕ) (h : Option Handler) (u : Usb) → (stored ep h u).new_data ≡ u.new_data
stored-new_data ep h u = elim (Bool-cases (any ep usb_dir_in)) [
  | inl t ↦ rw t refl
  | inr t ↦ rw t refl
]

-- What every event but an interrupt keeps: where the handlers stand, and the flag.
abbrev pub Kept : Usb → Usb → Type 0
Kept u v = Wired v × (v.new_data ≡ u.new_data)

-- It returns, and keeps them.
abbrev pub Returns : Usb → Result Usb → Type 0
Returns u r = (v : Usb) × (r ≡ ok v) × Kept u v
