-- ===== src/Rpc/Websocket/OutChans.antt =====
-- websocket.go `handleOutChans`: one goroutine that forwards what comes from the output channels.
use lotus_dashboard.Common.{
  ℕ, zero, suc, ◌-◌, List, [], ◌∷◌, ◌++◌, none, some, Result, ok, ◌>>=◌, or_fault,
  index_out_of_range, length, get_elem?, set, take,
}
use lotus_dashboard.Rpc.Message.{Request, ch_value, ch_close}
use lotus_dashboard.Rpc.Websocket.{Json}

-- A case of the `select`: the control channel, or an output channel.
pub data Case (V : Type 0) : Type 0 where
  control : Case V
  output : V → Case V

-- `cases` and `caseToID`: case i > 0 belongs to id i - 1.
pub record OutChans (V : Type 0) : Type 0 where
  pub cases : List (Case V)
  pub ids : List ℕ

-- What `reflect.Select` gives: the control channel is closed or registers an output channel; output
-- case i is closed or gives a value.
pub data Chosen (V : Type 0) : Type 0 where
  control_closed : Chosen V
  registers : ℕ → V → Chosen V
  output_closed : ℕ → Chosen V
  gives : ℕ → V → Chosen V

-- The goroutine returns, goes on, or goes on behind a request that it sends.
pub data Turn (V : Type 0) : Type 0 where
  done : Turn V
  next : OutChans V → Turn V
  sends : Request V → OutChans V → Turn V

abbrev pub first_cases : {V : Type 0} → OutChans V
first_cases = record { cases = control ∷ []; ids = [] }

-- `if n > 0 { cases[chosen] = cases[n]; caseToID[chosen-1] = caseToID[n-1] }`
unfoldable pub swap_last : {V : Type 0} → ℕ → ℕ → OutChans V → Result (OutChans V)
swap_last chosen zero s = ok s
swap_last chosen (suc m) s = do
  last ← or_fault index_out_of_range (get_elem? s.cases (suc m))
  last_id ← or_fault index_out_of_range (get_elem? s.ids m)
  ok (record { cases = set s.cases chosen last; ids = set s.ids (chosen - 1) last_id })

module _ {V : Type 0} (js : Json V) where
  -- The two requests that it sends: the id and the value stand beside empty bytes.
  abbrev pub close_notice : ℕ → Request V
  close_notice id = record {
    jsonrpc = "2.0";
    id = none;
    method = ch_close;
    params = record { bytes = []; value = some (js.uint64_value id) } ∷ [];
    meta = none;
  }

  abbrev pub value_notice : ℕ → V → Request V
  value_notice id val = record {
    jsonrpc = "2.0";
    id = none;
    method = ch_value;
    params =
        record { bytes = []; value = some (js.uint64_value id) }
        ∷ record { bytes = []; value = some val }
        ∷ [];
    meta = none;
  }

  -- One turn. The id of the notice is read behind the exchange.
  unfoldable pub out_step : OutChans V → Chosen V → Result (Turn V)
  unfolding swap_last
  out_step s control_closed = ok done
  out_step s (registers id ch) =
      ok (next (record { cases = s.cases ++ output ch ∷ []; ids = s.ids ++ id ∷ [] }))
  out_step s (output_closed chosen) = do
    let n = length s.ids
    t ← swap_last chosen n s
    id ← or_fault index_out_of_range (get_elem? t.ids (chosen - 1))
    ok (sends (close_notice id) (record { cases = take n t.cases; ids = take (n - 1) t.ids }))
  out_step s (gives chosen val) = do
    id ← or_fault index_out_of_range (get_elem? s.ids (chosen - 1))
    ok (sends (value_notice id val) s)
