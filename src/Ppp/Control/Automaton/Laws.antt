-- ===== src/Ppp/Control/Automaton/Laws.antt =====
-- device/antimony/src/net/control.rs, `ControlAutomaton`: which packets open the layer.
use okeanos.Prelude.{
  Exec, ℕ, ◌+◌, ◌%◌, ◌^◌, Bool, true, false, List, [], ◌∷◌, ◌++◌, Option, none, some, length,
  get_or, drop, not, if◌then◌else◌, ok, err, panic, ◌>>=◌, ltb, ◌==◌, ◌≡◌, ◌≢◌, ◌⊎◌, inl, inr, refl,
  sym, ap, subst, ◌∙◌,
}
use okeanos.Prelude.Words.{to_be_bytes16, from_be_bytes16}
use okeanos.Ppp.Frame.{Buffer}
use okeanos.Ppp.Control.{
  Code, conf_req, conf_ack, conf_nak, conf_rej, term_req, term_ack, code_rej, to_u8, try_from,
  Packet, S, closed, req_sent, ack_received, ack_sent, opened, Verdict, is_reject, is_nak, as_nak,
  as_reject, ControlProtocol, from_slice, build,
}
use okeanos.Ppp.Control.Automaton.{
  ControlAutomaton, exec, send, send_configure_request, collect, answer, received_configure_request,
  after_request, on_conf_req, acked, on_conf_ack, on_term_req, nak_options, on_conf_nak, dispatch,
  handle, handle_decoded, is_closed, decode_code, decode_packet, received, set_state, same_state,
  any, kept_bytes, send_verdicts, push, total,
}

-- `P` holds of the value, if the call returns one.
abbrev Returns : {A : Type 0} → (A → Type 0) → Exec A → Type 0
Returns P (ok a) = P a
Returns P (err e) = Unit
Returns P panic = Unit

Returns-bind :
    {A B : Type 0} (P : A → Type 0) (Q : B → Type 0) (m : Exec A) (f : A → Exec B)
    → Returns P m
    → ((a : A) → P a → Returns Q (f a))
    → Returns Q (m >>= f)
Returns-bind P Q (ok a) f h k = k a h
Returns-bind P Q (err e) f h k = tt
Returns-bind P Q panic f h k = tt

Returns-any : {A : Type 0} (m : Exec A) → Returns (λ a. Unit {0}) m
Returns-any (ok a) = tt
Returns-any (err e) = tt
Returns-any panic = tt

Returns-if :
    {A : Type 0} (P : A → Type 0) (b : Bool) (x y : Exec A)
    → Returns P x
    → Returns P y
    → Returns P (if b then x else y)
Returns-if P true x y h k = h
Returns-if P false x y h k = k

-- The packets that open a layer that is in state `s`.
abbrev pub Opening : Code → S → Type 0
Opening code s = ((code ≡ conf_ack) × (s ≡ ack_sent)) ⊎ ((code ≡ conf_req) × (s ≡ ack_received))

module _ {CP Opt : Type 0} (cp : ControlProtocol CP Opt) where
  -- The call leaves the state `s`.
  abbrev Stays : S → Exec (ControlAutomaton CP) → Type 0
  Stays s m = Returns (λ a. a.state ≡ s) m

  push-Stays :
      (a : ControlAutomaton CP) (m : Exec Buffer)
      → Stays a.state (m >>= λ frame. ok (push cp a frame))
  push-Stays a (ok frame) = refl
  push-Stays a (err e) = tt
  push-Stays a panic = tt

  send-Stays : (a : ControlAutomaton CP) (p : Packet) → Stays a.state (send cp a p)
  unfolding send
  send-Stays a p = push-Stays a (
      exec (
        build cp.protocol (
          (to_u8 p.code ∷ p.id ∷ [])
          ∷ to_be_bytes16 ((4 + length p.bytes) % 2 ^ 16)
          ∷ p.bytes
          ∷ [])))

  send_configure_request-Stays :
      (a : ControlAutomaton CP) → Stays a.state (send_configure_request cp a)
  unfolding send_configure_request
  send_configure_request-Stays a =
      let a1 = record a { scr_id = (a.scr_id + 1) % 2 ^ 8 } in
      let m = exec (cp.get_opts a.inner) in
      Returns-bind (λ opts. Unit {0}) (λ a'. a'.state ≡ a.state) m
        (λ opts. send cp a1 (record { code = conf_req; id = a.scr_id; bytes = opts }))
        (Returns-any m)
        (λ opts u. send-Stays a1 (record { code = conf_req; id = a.scr_id; bytes = opts }))

  -- The state after an answer with its flag.
  flag-Stays :
      (a : ControlAutomaton CP) (m : Exec (ControlAutomaton CP)) (b : Bool)
      → Stays a.state m
      → Returns (λ (r : ControlAutomaton CP × Bool). r.0.state ≡ a.state) (m >>= λ a'. ok (a', b))
  flag-Stays a (ok a') b h = h
  flag-Stays a (err e) b h = tt
  flag-Stays a panic b h = tt

  send_verdicts-Stays :
      (a : ControlAutomaton CP) (code : Code) (id : ℕ) (parts : List (List ℕ))
      → Stays a.state (send_verdicts cp a code id parts)
  send_verdicts-Stays a code id parts = push-Stays a (
      exec (
        build cp.protocol
          ((to_u8 code ∷ id ∷ []) ∷ to_be_bytes16 ((4 + total parts) % 2 ^ 16) ∷ parts)))

  answer-Stays :
      (a : ControlAutomaton CP) (p : Packet) (v : Option (List Verdict))
      → Returns (λ (r : ControlAutomaton CP × Bool). r.0.state ≡ a.state) (answer cp a p v)
  answer-Stays a p none = refl
  answer-Stays a p (some vs) =
      let P = λ (r : ControlAutomaton CP × Bool). r.0.state ≡ a.state in
      let rej' =
        send_verdicts cp a conf_rej p.id (kept_bytes as_reject vs) >>= λ a'. ok (a', false) in
      let nak' = send_verdicts cp a conf_nak p.id (kept_bytes as_nak vs) >>= λ a'. ok (a', false) in
      let ack' = send cp a (record p { code = conf_ack }) >>= λ a'. ok (a', true) in
      Returns-if P (any is_reject vs) rej' (if any is_nak vs then nak' else ack')
        (flag-Stays a (send_verdicts cp a conf_rej p.id (kept_bytes as_reject vs)) false
          (send_verdicts-Stays a conf_rej p.id (kept_bytes as_reject vs)))
        (Returns-if P (any is_nak vs) nak' ack'
          (flag-Stays a (send_verdicts cp a conf_nak p.id (kept_bytes as_nak vs)) false
            (send_verdicts-Stays a conf_nak p.id (kept_bytes as_nak vs)))
          (flag-Stays a (send cp a (record p { code = conf_ack })) true
            (send-Stays a (record p { code = conf_ack }))))

  received_configure_request-Stays :
      (fuel : ℕ) (a : ControlAutomaton CP) (p : Packet)
      → Returns
          (λ (r : ControlAutomaton CP × Bool). r.0.state ≡ a.state)
          (received_configure_request cp fuel a p)
  unfolding received_configure_request
  received_configure_request-Stays fuel a p =
      let m = collect cp fuel a.inner (from_slice p.bytes) in
      Returns-bind (λ r. Unit {0}) (λ (r : ControlAutomaton CP × Bool). r.0.state ≡ a.state) m
        (λ r. answer cp (record a { inner = r.0 }) p r.1) (Returns-any m)
        (λ r u. answer-Stays (record a { inner = r.0 }) p r.1)

  -- A call that ends in a state which is not the open one.
  shut :
      (C : Type 0) (s : S) (m : Exec (ControlAutomaton CP))
      → (s ≡ opened → C)
      → Stays s m
      → Returns (λ a. a.state ≡ opened → C) m
  shut C s (ok a) h e = λ o. h (sym e ∙ o)
  shut C s (err e') h e = tt
  shut C s panic h e = tt

  after_request-Opens :
      (a : ControlAutomaton CP) (p : Packet) (b : Bool) (s : S)
      → a.state ≡ s
      → s ≢ opened
      → Returns (λ a'. a'.state ≡ opened → Opening conf_req s) (after_request cp a p b s)
  after_request-Opens a p true closed e ne = λ o. cc (e, o)
  after_request-Opens a p false closed e ne = λ o. cc (e, o)
  after_request-Opens a p true req_sent e ne = λ o. cc o
  after_request-Opens a p false req_sent e ne = λ o. cc (e, o)
  after_request-Opens a p true ack_received e ne = λ o. inr (refl, refl)
  after_request-Opens a p false ack_received e ne = λ o. inr (refl, refl)
  after_request-Opens a p true ack_sent e ne = λ o. cc (e, o)
  after_request-Opens a p false ack_sent e ne = λ o. cc o
  after_request-Opens a p b opened e ne = absurd (ne refl)

  on_conf_req-Opens :
      (fuel : ℕ) (a : ControlAutomaton CP) (p : Packet)
      → a.state ≢ opened
      → Returns (λ a'. a'.state ≡ opened → Opening conf_req a.state) (on_conf_req cp fuel a p)
  unfolding on_conf_req
  on_conf_req-Opens fuel a p ne =
      let Q = λ (a' : ControlAutomaton CP). a'.state ≡ opened → Opening conf_req a.state in
      let m = received_configure_request cp fuel a p in
      Returns-bind (λ (r : ControlAutomaton CP × Bool). r.0.state ≡ a.state) Q m
        (λ r.
          after_request cp r.0 p r.1 a.state >>= λ a'. ok (record a' { last_req_id = some p.id }))
        (received_configure_request-Stays fuel a p)
        (λ r e.
          Returns-bind Q Q (after_request cp r.0 p r.1 a.state)
            (λ a'. ok (record a' { last_req_id = some p.id }))
            (after_request-Opens r.0 p r.1 a.state e ne) (λ a' h. h))

  acked-Opens :
      (a : ControlAutomaton CP) (s : S)
      → s ≢ opened
      → Returns (λ a'. a'.state ≡ opened → Opening conf_ack s) (acked cp a s)
  acked-Opens a closed ne =
      shut (Opening conf_ack closed) req_sent (send_configure_request cp (set_state a req_sent))
        (λ o. cc o) (send_configure_request-Stays (set_state a req_sent))
  acked-Opens a req_sent ne = λ o. cc o
  acked-Opens a ack_received ne =
      shut (Opening conf_ack ack_received) req_sent
        (send_configure_request cp (set_state a req_sent)) (λ o. cc o)
        (send_configure_request-Stays (set_state a req_sent))
  acked-Opens a ack_sent ne = λ o. inl (refl, refl)
  acked-Opens a opened ne = absurd (ne refl)

  term_shut :
      (b : Bool) (a' : ControlAutomaton CP) (C : Type 0)
      → (if b
          then record a' { state = closed; last_req_id = none }
          else set_state a' req_sent).state
        ≡ opened
      → C
  term_shut true a' C o = cc o
  term_shut false a' C o = cc o

  on_term_req-Opens :
      (a : ControlAutomaton CP) (p : Packet) (C : Type 0)
      → Returns (λ a'. a'.state ≡ opened → C) (on_term_req cp a p)
  unfolding on_term_req
  on_term_req-Opens a p C =
      let m = send cp a (record { code = term_ack; id = p.id; bytes = [] }) in
      Returns-bind (λ u. Unit {0}) (λ a'. a'.state ≡ opened → C) m
        (λ a'. ok (
          if same_state a.state opened
          then record a' { state = closed; last_req_id = none }
          else set_state a' req_sent))
        (Returns-any m) (λ a' u. term_shut (same_state a.state opened) a' C)

  on_conf_nak-Stays :
      (fuel : ℕ) (a : ControlAutomaton CP) (p : Packet) → Stays a.state (on_conf_nak cp fuel a p)
  unfolding on_conf_nak
  on_conf_nak-Stays fuel a p =
      let m = nak_options cp fuel a.inner (from_slice p.bytes) true in
      Returns-bind (λ u. Unit {0}) (λ a'. a'.state ≡ a.state) m
        (λ r.
          if r.1
          then send_configure_request cp (record a { inner = r.0 })
          else ok (record a { inner = r.0 }))
        (Returns-any m)
        (λ r u.
          Returns-if (λ a'. a'.state ≡ a.state) r.1
            (send_configure_request cp (record a { inner = r.0 })) (ok (record a { inner = r.0 }))
            (send_configure_request-Stays (record a { inner = r.0 })) refl)

  -- In a state that is not the open one.
  dispatch-Opens :
      (fuel : ℕ) (a : ControlAutomaton CP) (p : Packet) (code : Code)
      → a.state ≢ opened
      → Returns (λ a'. a'.state ≡ opened → Opening code a.state) (dispatch cp fuel a p code)
  unfolding on_conf_ack
  dispatch-Opens fuel a p conf_req ne = on_conf_req-Opens fuel a p ne
  dispatch-Opens fuel a p conf_ack ne = acked-Opens a a.state ne
  dispatch-Opens fuel a p term_req ne = on_term_req-Opens a p (Opening term_req a.state)
  dispatch-Opens fuel a p term_ack ne = λ o. absurd (ne o)
  dispatch-Opens fuel a p conf_nak ne =
      shut (Opening conf_nak a.state) a.state (on_conf_nak cp fuel a p) (λ o. absurd (ne o))
        (on_conf_nak-Stays fuel a p)
  dispatch-Opens fuel a p conf_rej ne = λ o. absurd (ne o)
  dispatch-Opens fuel a p code_rej ne = λ o. absurd (ne o)

  handle-Opens :
      (fuel : ℕ) (a : ControlAutomaton CP) (p : Packet)
      → a.state ≢ opened
      → Returns (λ a'. a'.state ≡ opened → Opening p.code a.state) (handle cp fuel a p)
  handle-Opens fuel a p ne =
      let bye : Packet = record { code = term_ack; id = p.id; bytes = [] } in
      Returns-if (λ a'. a'.state ≡ opened → Opening p.code a.state) (is_closed a) (send cp a bye)
        (dispatch cp fuel a p p.code)
        (shut (Opening p.code a.state) a.state (send cp a bye) (λ o. absurd (ne o))
          (send-Stays a bye))
        (dispatch-Opens fuel a p p.code ne)

  -- What the decoder leaves, and the packet that it found.
  Decoded : ControlAutomaton CP → List ℕ → ControlAutomaton CP × Option Packet → Type 0
  Decoded a bytes r =
      (r.0.state ≡ a.state)
      × ((p : Packet) → r.1 ≡ some p → try_from (get_or bytes 0 0) ≡ some p.code)

  decode_code-Decoded :
      (a : ControlAutomaton CP) (bytes : List ℕ) (c : Option Code)
      → try_from (get_or bytes 0 0) ≡ c
      → Returns
          (Decoded a bytes)
          (decode_code cp a (get_or bytes 0 0) (get_or bytes 1 0) (drop 4 bytes) c)
  unfolding Decoded
  decode_code-Decoded a bytes none e =
      let m =
        exec (cp.received_unknown_code (get_or bytes 0 0) (get_or bytes 1 0) (drop 4 bytes)) in
      Returns-bind (λ u. Unit {0}) (Decoded a bytes) m
        (λ frames. ok (record a { sent = a.sent ++ frames }, none)) (Returns-any m)
        (λ frames u. (refl, λ p no. cc no))
  decode_code-Decoded a bytes (some code) e =
      (refl, λ p same. e ∙ ap (λ o. elim o [ none ↦ none | some q ↦ some q.code ]) same)

  decode_packet-Decoded :
      (a : ControlAutomaton CP) (bytes : List ℕ)
      → Returns (Decoded a bytes) (decode_packet cp a bytes)
  unfolding decode_packet Decoded
  decode_packet-Decoded a bytes =
      let D = Decoded a bytes in
      let declared = from_be_bytes16 (get_or bytes 2 0) (get_or bytes 3 0) in
      let found =
        decode_code cp a (get_or bytes 0 0) (get_or bytes 1 0) (drop 4 bytes)
          (try_from (get_or bytes 0 0)) in
      Returns-if D (ltb (length bytes) 4) (ok (a, none))
        (if not (declared == length bytes) then ok (a, none) else found) (refl, λ p no. cc no)
        (Returns-if D (not (declared == length bytes)) (ok (a, none)) found (refl, λ p no. cc no)
          (decode_code-Decoded a bytes (try_from (get_or bytes 0 0)) refl))

  handle_decoded-Opens :
      (fuel : ℕ) (a : ControlAutomaton CP) (bytes : List ℕ)
      (r : ControlAutomaton CP × Option Packet)
      → a.state ≢ opened
      → Decoded a bytes r
      → Returns
          (λ a'.
            a'.state ≡ opened
            → (code : Code) × (try_from (get_or bytes 0 0) ≡ some code) × Opening code a.state)
          (handle_decoded cp fuel r)
  unfolding Decoded
  handle_decoded-Opens fuel a bytes (a1, none) ne d = λ o. absurd (ne (sym d.0 ∙ o))
  handle_decoded-Opens fuel a bytes (a1, some p) ne d =
      elim (handle cp fuel a1 p)
          as (λ m.
            Returns (λ a'. a'.state ≡ opened → Opening p.code a1.state) m
            → Returns
                (λ a'.
                  a'.state ≡ opened
                  → (code : Code) × (try_from (get_or bytes 0 0) ≡ some code)
                    × Opening code a.state)
                m) [
                  | ok a' ↦ λ h o. (p.code, d.1 p refl, subst (Opening p.code) d.0 (h o))
                  | err e ↦ λ h. tt
                  | panic ↦ λ h. tt
                ]
        (handle-Opens fuel a1 p (λ o. ne (sym d.0 ∙ o)))

  -- A layer that is not up comes up by a packet only where this is a Configure-Ack and a
  -- Configure-Ack was sent, or a Configure-Request and a Configure-Ack was received.
  pub received-opened :
      (fuel : ℕ) (a a' : ControlAutomaton CP) (bytes : List ℕ)
      → a.state ≢ opened
      → received cp fuel a bytes ≡ ok a'
      → a'.state ≡ opened
      → (code : Code) × (try_from (get_or bytes 0 0) ≡ some code) × Opening code a.state
  unfolding received
  received-opened fuel a a' bytes ne call =
      let Q = λ (b : ControlAutomaton CP).
        b.state ≡ opened
        → (code : Code) × (try_from (get_or bytes 0 0) ≡ some code) × Opening code a.state in
      subst (Returns Q) call (
        Returns-bind (Decoded a bytes) Q (decode_packet cp a bytes) (handle_decoded cp fuel)
          (decode_packet-Decoded a bytes) (λ r d. handle_decoded-Opens fuel a bytes r ne d))
