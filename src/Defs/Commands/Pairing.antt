-- ===== src/Defs/Commands/Pairing.antt =====
-- The ids of src/defs/commands.ts, and the responses that they pair with.
use smpp_js.Prelude.{
  ℕ, ◌+◌, ◌<◌, ◌≡◌, refl, Bool, true, ◌&&◌, Option, none, some, String, string_eq, nat_eq, find,
  every, every-find, is_name, is_name_eq, ◌==◌, ltb, arith,
}
use smpp_js.Defs.Commands.{CommandSpec, specs, command_name_by_id, resp_name_for}

named_back : every (λ name spec. is_name (command_name_by_id spec.id) name) specs ≡ true
unfolding command_name_by_id specs
named_back = refl

-- Every command of the table is found again by its id, so no two commands share an id.
pub command_name_by_id-specs :
    (name : String) (spec : CommandSpec)
    → find name specs ≡ some spec
    → command_name_by_id spec.id ≡ some name
command_name_by_id-specs name spec e = is_name_eq _ name (
    every-find (λ name spec. is_name (command_name_by_id spec.id) name) specs name spec named_back
      e)

abbrev pub resp_bit : ℕ
resp_bit = 0x8000_0000

-- The id of a command, and 0 for a name that is none.
abbrev pub id_of : Option String → ℕ
id_of none = 0
id_of (some name) = elim (find name specs) [ none ↦ 0 | some spec ↦ spec.id ]

pairs : String → CommandSpec → Bool
pairs name spec = elim (resp_name_for (some name)) [
  | none ↦ true
  | some resp ↦ ltb spec.id resp_bit && (id_of (some resp) == spec.id + resp_bit)
]

all_pair : every pairs specs ≡ true
unfolding pairs specs resp_name_for
all_pair = refl

pairs_lem :
    (name resp : String) (spec : CommandSpec)
    → pairs name spec ≡ true
    → resp_name_for (some name) ≡ some resp
    → (spec.id < resp_bit) × (id_of (some resp) ≡ spec.id + resp_bit)
unfolding pairs
pairs_lem name resp spec h e = let k = rw (e, pairs) at h in ground (arith, k)

-- A command with a response has an id below the response bit, and the id of its response is that
-- id with the bit set.
pub resp_name_for-id :
    (name resp : String) (spec : CommandSpec)
    → find name specs ≡ some spec
    → resp_name_for (some name) ≡ some resp
    → (spec.id < resp_bit) × (id_of (some resp) ≡ spec.id + resp_bit)
resp_name_for-id name resp spec e r =
    pairs_lem name resp spec (every-find pairs specs name spec all_pair e) r
