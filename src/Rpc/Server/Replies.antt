-- ===== src/Rpc/Server/Replies.antt =====
-- A request over plain HTTP is answered once.
use lotus_dashboard.Common.{◌≡◌, ◌⊎◌, [], ◌∷◌, Option, none, some, nat_eq, string_eq, if◌then◌else◌}
use lotus_dashboard.Common.Int.{ℤ}
use lotus_dashboard.Rpc.Message.{Bytes, Response, RespError}
use lotus_dashboard.Rpc.Server.{status, body, encodes}
use lotus_dashboard.Rpc.Server.Outcomes.{Reply}

-- One response with the id, or nothing if its result cannot be encoded, or status 500 and one error
-- with the id; and no fault.
abbrev pub IsReply : {V : Type 0} → (V → Option Bytes) → ℤ → Reply V → Type 0
IsReply {V} marshal n o =
    (r : Response V) × (r.id ≡ n)
    × ((o ≡ ((if encodes marshal r then body r ∷ [] else []), none))
        ⊎ ((e : RespError) × (r.result ≡ none)
            × (r.error ≡ some e)
            × (o ≡ (status 500 ∷ body r ∷ [], none))))
