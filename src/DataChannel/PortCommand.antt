-- ===== src/DataChannel/PortCommand.antt =====
-- src/server/data_channel.h: parsePortCommand.
pub mod RoundTrip
use nexus_ftp_engine.Prelude.{
  ℕ, zero, suc, ◌+◌, ◌-◌, ◌^◌, Option, none, some, List, [], ◌∷◌, ◌++◌, leb, ltb, ◌==◌, length,
  get_or, set, ◌&&◌, if◌then◌else◌,
}
use nexus_ftp_engine.Prelude.Int.{ℤ, pos, negsuc, ◌+ℤ◌, ◌*ℤ◌, ltb_ℤ}
use nexus_ftp_engine.Bytes.{Bytes}
use nexus_ftp_engine.Bytes.Decimal.{to_string, stoi}

-- How a call ends: with a value, by a C++ exception, or in undefined behaviour.
pub data Outcome {ℓ} (A : Type ℓ) : Type ℓ where
  ok : A → Outcome A
  thrown undefined : Outcome A

infixl 5 ◌>>=◌
abbrev pub ◌>>=◌ {ℓ κ} : {A : Type ℓ} {B : Type κ} → Outcome A → (A → Outcome B) → Outcome B
ok a >>= f = f a
thrown >>= f = thrown
undefined >>= f = undefined

-- std::to_string of an int
unfoldable pub int_to_string : ℤ → Bytes
int_to_string (pos n) = to_string n
int_to_string (negsuc n) = b'-' ∷ to_string (suc n)

abbrev pub zeros : List ℤ
zeros = pos 0 ∷ pos 0 ∷ pos 0 ∷ pos 0 ∷ pos 0 ∷ pos 0 ∷ []

-- nums[idx] = std::stoi(temp): a write past the six elements is undefined.
unfoldable pub store : List ℤ → ℕ → Bytes → Outcome (List ℤ)
store nums idx temp = elim (stoi temp) [
  | none ↦ thrown
  | some n ↦ if ltb idx 6 then ok (set nums idx n) else undefined
]

-- The loop over the characters, and the last number behind it.
unfoldable pub parse_numbers : List ℤ → ℕ → Bytes → Bytes → Outcome (List ℤ)
unfolding store
parse_numbers nums idx temp [] = store nums idx temp
parse_numbers nums idx temp (c ∷ arg) =
    let next = (do stored ← store nums idx temp; parse_numbers stored (idx + 1) [] arg) in
    let more = parse_numbers nums idx (temp ++ c ∷ []) arg in if c == b',' then next else more

-- An int of the program: outside of these bounds signed arithmetic is undefined.
unfoldable pub in_int : ℤ → Outcome ℤ
in_int (pos n) = if ltb n (2 ^ 31) then ok (pos n) else undefined
in_int (negsuc n) = if ltb n (2 ^ 31) then ok (negsuc n) else undefined

abbrev pub num : List ℤ → ℕ → ℤ
num nums i = get_or nums i (pos 0)

unfoldable pub dotted_ip : List ℤ → Bytes
unfolding int_to_string
dotted_ip nums =
    int_to_string (num nums 0)
    ++ b'.' ∷ int_to_string (num nums 1)
    ++ b'.' ∷ int_to_string (num nums 2)
    ++ b'.' ∷ int_to_string (num nums 3)

-- nums[4] * 256 + nums[5]
unfoldable pub port_of : List ℤ → Outcome ℤ
unfolding in_int
port_of nums = do high ← in_int (num nums 4 *ℤ pos 256); in_int (high +ℤ num nums 5)

-- DataChannel::parsePortCommand: the address and the port.
unfoldable pub parse_port_command : Bytes → Outcome (Bytes × ℤ)
unfolding parse_numbers dotted_ip port_of
parse_port_command arg = do
  nums ← parse_numbers zeros 0 [] arg
  port ← port_of nums
  ok (dotted_ip nums, port)
