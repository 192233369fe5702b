-- ===== src/Defs/Tlvs/Table.antt =====
-- The table of src/defs/tlvs.ts names each tag once, and numbers it once.
use smpp_js.Prelude.{
  ℕ, zero, suc, ◌≤◌, ◌≡◌, refl, sym, ap, ◌∙◌, Bool, true, false, ◌&&◌, Option, none, some, List, [],
  ◌∷◌, map, String, string_eq, nat_eq, find, Eq, leb, ◌==◌, ==_iff, if◌then◌else◌, arith,
}
use smpp_js.Wire.Ints.{one, two, four}
use smpp_js.Defs.Tlvs.{
  TlvType, int, cstring, string, buffer, TlvDefinition, specs, spec_of, filled, tlvs_by_id,
}
use smpp_js.Encodings.Lossless.{both}

abbrev type_code : TlvType → ℕ
type_code (int one) = 0
type_code (int two) = 1
type_code (int four) = 2
type_code cstring = 3
type_code string = 4
type_code buffer = 5

type_code_eq : (a b : TlvType) → (type_code a == type_code b) ≡ true → a ≡ b
type_code_eq a b h = back a ∙ ap type_at ((==_iff (type_code a) (type_code b)).0 h) ∙ sym (back b)
  where
    type_at : ℕ → TlvType
    type_at zero = int one
    type_at (suc zero) = int two
    type_at (suc (suc zero)) = int four
    type_at (suc (suc (suc zero))) = cstring
    type_at (suc (suc (suc (suc zero)))) = string
    type_at _ = buffer

    back : (a : TlvType) → a ≡ type_at (type_code a)
    back (int one) = refl
    back (int two) = refl
    back (int four) = refl
    back cstring = refl
    back string = refl
    back buffer = refl

abbrev bool_same : Bool → Bool → Bool
bool_same true b = b
bool_same false true = false
bool_same false false = true

bool_same_eq : (a b : Bool) → bool_same a b ≡ true → a ≡ b
bool_same_eq true b h = sym h
bool_same_eq false true h = cc
bool_same_eq false false h = refl

abbrev same : TlvDefinition → TlvDefinition → Bool
same a b =
    (a.id == b.id)
    && (bool_same a.multiple b.multiple
        && (string_eq.beq a.tag b.tag && (type_code a.type == type_code b.type)))

same_eq : (a b : TlvDefinition) → same a b ≡ true → a ≡ b
same_eq a b h =
    let (i, h1) = both (a.id == b.id) _ h in
    let (m, h2) = both (bool_same a.multiple b.multiple) _ h1 in
    let (t, k) = both (string_eq.beq a.tag b.tag) _ h2 in
    let ids = (==_iff a.id b.id).0 i in
    let mult = bool_same_eq a.multiple b.multiple m in
    let tags = (string_eq.beq_iff a.tag b.tag).0 t in
    let types = type_code_eq a.type b.type k in cc (ids, mult, tags, types)

abbrev is_it : Option TlvDefinition → TlvDefinition → Bool
is_it none d = false
is_it (some e) d = same e d

is_it_eq : (o : Option TlvDefinition) (d : TlvDefinition) → is_it o d ≡ true → o ≡ some d
is_it_eq none d h = cc
is_it_eq (some e) d h = ap some (same_eq e d h)

module _ {K : Type 0} ⦃e : Eq K⦄ where
  abbrev all_entries : (K → TlvDefinition → Bool) → List (K × TlvDefinition) → Bool
  all_entries p [] = true
  all_entries p ((k, d) ∷ m) = p k d && all_entries p m

  all_entries-find :
      (p : K → TlvDefinition → Bool) (m : List (K × TlvDefinition)) (k : K) (d : TlvDefinition)
      → all_entries p m ≡ true
      → find k m ≡ some d
      → p k d ≡ true
  all_entries-find p [] k d h f = cc
  all_entries-find p ((j, x) ∷ m) k d h f = ground (arith, e.beq_iff j k, all_entries-find p m k d)

-- A type of which the values can be listed.
abbrev pub can_repeat : TlvType → Bool
can_repeat (int _) = true
can_repeat buffer = true
can_repeat _ = false

abbrev pub lists_well : TlvDefinition → Bool
lists_well d = if d.multiple then can_repeat d.type else true

abbrev well_named : String → TlvDefinition → Bool
well_named name d = string_eq.beq d.tag name && (is_it (tlvs_by_id d.id) d && leb d.id 0xFFFF)

abbrev well_numbered : ℕ → TlvDefinition → Bool
well_numbered id d = (d.id == id) && (is_it (spec_of d.tag) d && lists_well d)

all_named : all_entries well_named (map (λ d. (d.tag, d)) specs) ≡ true
unfolding specs spec_of tlvs_by_id filled
all_named = refl

all_numbered : all_entries well_numbered (filled specs []) ≡ true
unfolding specs spec_of tlvs_by_id filled
all_numbered = refl

spec_named : (name : String) (d : TlvDefinition) → spec_of name ≡ some d → well_named name d ≡ true
unfolding spec_of
spec_named name d h = all_entries-find well_named (map (λ x. (x.tag, x)) specs) name d all_named h

spec_numbered : (id : ℕ) (d : TlvDefinition) → tlvs_by_id id ≡ some d → well_numbered id d ≡ true
unfolding tlvs_by_id
spec_numbered id d h = all_entries-find well_numbered (filled specs []) id d all_numbered h

leb_le : (a b : ℕ) → leb a b ≡ true → a ≤ b
leb_le a b h = ground arith

-- A name of the table is that of a definition that its number, of two octets, leads back to.
pub spec_of-tlvs_by_id :
    (name : String) (d : TlvDefinition)
    → spec_of name ≡ some d
    → (d.tag ≡ name) × (tlvs_by_id d.id ≡ some d) × (d.id ≤ 0xFFFF)
spec_of-tlvs_by_id name d h =
    let (t, rest) = both (string_eq.beq d.tag name) _ (spec_named name d h) in
    let (i, l) = both (is_it (tlvs_by_id d.id) d) _ rest in
    ((string_eq.beq_iff d.tag name).0 t, is_it_eq (tlvs_by_id d.id) d i, leb_le d.id 0xFFFF l)

-- A number of the table is that of a definition that its name leads back to.
pub tlvs_by_id-spec_of :
    (id : ℕ) (d : TlvDefinition)
    → tlvs_by_id id ≡ some d
    → (d.id ≡ id) × (spec_of d.tag ≡ some d) × (lists_well d ≡ true)
tlvs_by_id-spec_of id d h =
    let (t, rest) = both (d.id == id) _ (spec_numbered id d h) in
    let (i, l) = both (is_it (spec_of d.tag) d) _ rest in
    ((==_iff d.id id).0 t, is_it_eq (spec_of d.tag) d i, l)
