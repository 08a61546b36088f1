-- ===== src/Rpc/Client/Examples/Typing.antt =====
-- The results of a call with an answer of a wrong id, where the type of a number is known.
use lotus_dashboard.Common.{ℕ, ◌≡◌, refl, false, Bool, arith, string_eq, ◌==◌, if◌then◌else◌}
use lotus_dashboard.Common.Int.{pos}
use lotus_dashboard.Rpc.Message.{Bytes}
use lotus_dashboard.Rpc.Util.{GoType}
use lotus_dashboard.Rpc.Handler.{Decoded, undecodable}
use lotus_dashboard.Rpc.Client.{ClientSide, func, answered, finish_call}
use lotus_dashboard.Rpc.Client.Typing.{IsTyped, Gives, ValueFits, finish_call-Gives}
use lotus_dashboard.Rpc.Client.Examples.{
  decode_number, side, balance, balance_type, balance_made, refusal,
}

abbrev is_number : GoType → Bool
is_number (GoType.named s) = s == "BigInt"
is_number t = false

abbrev decode_typed : GoType → Bytes → Decoded ℕ
decode_typed t b = if is_number t then decode_number t b else undecodable "unexpected type"

abbrev typed_side : ClientSide ℕ
typed_side = record side { unmarshal = decode_typed }

-- Of a type that is not the numbers there is just the zero value.
abbrev HasType : ℕ → GoType → Type 0
HasType n t = is_number t ≡ false → n ≡ 0

typed_side-IsTyped : IsTyped typed_side HasType
typed_side-IsTyped = record {
  zero_typed = λ t f. refl;
  unmarshal_sound = λ t b v e f. absurd (ground arith);
}

seven-ValueFits : ValueFits typed_side HasType balance 7
seven-ValueFits i t v o f = absurd (ground arith)

finish_call-Gives_example :
    Gives typed_side HasType balance_type.outs
      (finish_call typed_side balance (pos 4) (pos 0) 7 (answered refusal))
finish_call-Gives_example =
    finish_call-Gives typed_side HasType "Filecoin"
      (record { name = "WalletBalance"; type = func balance_type }) balance (pos 4) (pos 0) 7
      (answered refusal) typed_side-IsTyped balance_made seven-ValueFits (λ e. ground arith)
