-- ===== src/Boot/V2/Protocol/Resend.antt =====
-- What `heartbeat` of device/okboot/src/protocol/v2.rs leaves of the state.
use okeanos.Prelude.{
  ℕ, ◌-◌, Bool, false, if-cases, Outcome, ok, err, panic, ok-injective, ◌≡◌, ◌⊎◌, inl, inr, refl,
  ap, subst,
}
use okeanos.Frame.Crc.{Crc32}
use okeanos.Boot.Writer.{FrameSink}
use okeanos.Boot.Protocol.{ProtocolStatus, ToSlice, send_message}
use okeanos.Boot.V2.{Inflate, V2}
use okeanos.Boot.V2.Protocol.{message_of, after_send, should_send, heartbeat}

-- What a heartbeat at `later` leaves.
pub record Beats (I : Type 0) (v v' : V2 I) (later : ℕ) : Type 0 where
  pub state_is : v'.state ≡ v.state
  pub timeouts_is : v'.timeouts ≡ v.timeouts
  pub inflate_is : v'.inflate_state ≡ v.inflate_state
  pub pending_is : v'.pending ≡ v.pending
  pub beat : (v'.heartbeat ≡ v.heartbeat) ⊎ (v'.heartbeat ≡ later)

module _ (z : Inflate) {E PE : Type 0} (crc32 : Crc32) (to_slice : ToSlice E) where
  after_send-Beats :
      (v v' : V2 z.I) (later : ℕ) (r : FrameSink × Outcome (Unit {0}) Bool) (sink' : FrameSink)
      (status : ProtocolStatus PE)
      → after_send z crc32 to_slice v later r ≡ ok (v', sink', status)
      → Beats z.I v v' later
  after_send-Beats v v' later (sink, ok is_sent) sink' status run =
      subst (λ u. Beats z.I v u later) (ap (λ u. u.0) (ok-injective _ refl run))
        (record {
          state_is = refl;
          timeouts_is = refl;
          inflate_is = refl;
          pending_is = refl;
          beat = inr refl;
        })
  after_send-Beats v v' later (sink, err e) sink' status run =
      subst (λ u. Beats z.I v u later) (ap (λ u. u.0) (ok-injective _ refl run))
        (record {
          state_is = refl;
          timeouts_is = refl;
          inflate_is = refl;
          pending_is = refl;
          beat = inl refl;
        })
  after_send-Beats v v' later (sink, panic) sink' status run = cc

  pub heartbeat-Beats :
      (v v' : V2 z.I) (sink sink' : FrameSink) (now later : ℕ) (status : ProtocolStatus PE)
      → heartbeat z crc32 to_slice v sink now later ≡ ok (v', sink', status)
      → Beats z.I (record v { once = false }) v' later
  unfolding heartbeat
  heartbeat-Beats v v' sink sink' now later status run =
      elim (if-cases (should_send z v (now - v.heartbeat)) _ _ run) [
        | inl (t, run') ↦
            after_send-Beats (record v { once = false }) v' later
              (send_message crc32 to_slice sink (message_of v.state)) sink' status run'
        | inr (t, run') ↦
            subst (λ u. Beats z.I (record v { once = false }) u later)
              (ap (λ u. u.0) (ok-injective _ refl run'))
              (record {
                state_is = refl;
                timeouts_is = refl;
                inflate_is = refl;
                pending_is = refl;
                beat = inl refl;
              })
      ]
