-- ===== src/Rpc/Server/Session.antt =====
-- server.go `handleWS` to its end: the upgrade, the connection, and how it ends.
use mathlib.Core.Option
use lotus_dashboard.Common.{
  ◌≡◌, ◌∙◌, refl, sym, ap, inl, inr, String, List, Bool, true, false, Option, none, some, Result,
  ◌>>=◌, Result-cases, is_ok, if◌then◌else◌,
}
use lotus_dashboard.Rpc.Message.{Frame}
use lotus_dashboard.Rpc.Websocket.{Json, WsConn}
use lotus_dashboard.Rpc.Websocket.Loop.{incoming_closed, loop_step, connect, close_all, cleanup}
use lotus_dashboard.Rpc.Websocket.Surviving.{
  all_safe, conn_of, receive_all, receive_all-all_safe, receive_all-IsServing,
}
use lotus_dashboard.Rpc.Server.{Output, handle_ws}

module _ {V : Type 0} (js : Json V) where
  -- `handleWsConn` on the server's side: frames come in, oldest first, and then their end.
  unfoldable pub serve_conn : List (Frame V) → Result (WsConn V)
  serve_conn fs = do
    c ← receive_all js fs connect
    l ← loop_step js c incoming_closed
    cleanup (conn_of js l)

  -- `handleWS`: what it writes before the hand-over, and the connection at its end, if the upgrade
  -- succeeds. The close of the socket behind that is left out.
  unfoldable pub serve_ws :
      String → Bool → List (Frame V) → List (Output V) × Option (Result (WsConn V))
  unfolding serve_conn
  serve_ws protocol upgraded fs =
      let start = handle_ws protocol upgraded in
      (start.0, if start.1 then some (serve_conn fs) else none)

  serve_conn-is_ok : (fs : List (Frame V)) → is_ok (serve_conn fs) ≡ all_safe fs
  unfolding serve_conn loop_step cleanup close_all
  serve_conn-is_ok fs = elim (Result-cases (receive_all js fs connect)) [
    | inr (x, e) ↦ rw (e, serve_conn) (sym (ap is_ok e) ∙ receive_all-all_safe js fs)
    | inl (c, e) ↦
        let s = receive_all-IsServing js fs c e in
        rw (e, serve_conn, s.none_in_flight) (sym (ap is_ok e) ∙ receive_all-all_safe js fs)
  ]

  -- A websocket session of the server, once the frames have come to their end, comes to its end
  -- without a fault exactly if each of the frames is a response, a built-in instruction that has
  -- a parameter, or a call that has an id. There is no session if the upgrade fails.
  pub serve_ws-all_safe :
      (protocol : String) (upgraded : Bool) (fs : List (Frame V))
      → Option.map is_ok (serve_ws protocol upgraded fs).1
        ≡ (if upgraded then some (all_safe fs) else none)
  unfolding serve_ws handle_ws
  serve_ws-all_safe protocol false fs = refl
  serve_ws-all_safe protocol true fs = ap some (serve_conn-is_ok fs)
