-- ===== src/Delivery/Channels/Laws.antt =====
-- The drain of a whole channel refines the abstract delivery, region by region.
use qiskit_serverless.Base.{
  Bool, List, Option, String, [], false, if◌then◌else◌, none, some, sym, true, ℕ, ◌+◌, ◌∷◌, ◌≡◌,
}
use qiskit_serverless.Delivery.{
  DrainState, Outside, RetryConfig, Sender, breaker_is_open, drain_region, may_continue,
}
use qiskit_serverless.Breaker.{Settings}
use qiskit_serverless.Models.{Channel}
use qiskit_serverless.Delivery.Refinement.{
  Message, ReturnsDelivering, drain_region-Delivers, messages, without_keys, without_keys-none,
}
use qiskit_serverless.Delivery.Channels.{
  ChannelState, after_region, drain, drain_regions, enter_region, leave_region, pending_regions,
}

abbrev pub ReturnsOwing : List Message → Option ChannelState → Type 0
ReturnsOwing owed none = Unit
ReturnsOwing owed (some st) = messages st.outbox ≡ without_keys st.delivered owed

if-ReturnsOwing :
    (owed : List Message) (b : Bool) (x y : Option ChannelState)
    → ReturnsOwing owed x
    → ReturnsOwing owed y
    → ReturnsOwing owed (if b then x else y)
if-ReturnsOwing owed true x y p q = p
if-ReturnsOwing owed false x y p q = q

module _ (outside : Outside) (settings : Settings) (config : RetryConfig) (sender : Sender)
    (channel : Channel) (deadline fuel : ℕ) (owed : List Message) where
  after_region-ReturnsOwing :
      (region : Option String) (st : ChannelState) (o : Option DrainState)
      (next : ChannelState → Option ChannelState)
      → ReturnsDelivering outside settings config owed o
      → ((v : ChannelState)
          → messages v.outbox ≡ without_keys v.delivered owed
          → ReturnsOwing owed (next v))
      → ReturnsOwing owed (after_region region st o next)
  after_region-ReturnsOwing region st none next p h = tt
  after_region-ReturnsOwing region st (some v) next p h = h (leave_region region st v) p

  drain_regions-ReturnsOwing :
      (regions : List (Option String)) (st : ChannelState)
      → messages st.outbox ≡ without_keys st.delivered owed
      → ReturnsOwing owed
          (drain_regions outside settings config sender channel deadline fuel regions st)
  unfolding drain_regions breaker_is_open
  drain_regions-ReturnsOwing [] st h = h
  drain_regions-ReturnsOwing (region ∷ regions) st h =
      let told : ChannelState = record st { asked = st.asked + 1 } in
      let (open_now, v) = breaker_is_open outside settings (enter_region region told) in
      if-ReturnsOwing owed (may_continue outside deadline st.asked) _ (some told)
        (if-ReturnsOwing owed open_now _ _
          (drain_regions-ReturnsOwing regions (leave_region region told v) h)
          (after_region-ReturnsOwing region told
            (drain_region outside settings config sender channel region deadline fuel v)
            (drain_regions outside settings config sender channel deadline fuel regions)
            (drain_region-Delivers outside settings config owed sender channel region deadline fuel
              v h)
            (drain_regions-ReturnsOwing regions)))
        h

-- The drain of a channel refines the abstract delivery: when it returns, what the outbox owes, over all
-- channels and regions, is exactly what it owed before, in the same order, less the messages whose
-- keys the sender confirmed. No message is lost or altered by a failure, an open breaker, a spent
-- budget or a kill signal, and none that was confirmed stays to be sent again.
pub drain_refines :
    (outside : Outside) (settings : Settings) (config : RetryConfig) (sender : Sender)
    (channel : Channel) (deadline fuel : ℕ) (st st' : ChannelState)
    → st.delivered ≡ []
    → drain outside settings config sender channel deadline fuel st ≡ some st'
    → messages st'.outbox ≡ without_keys st'.delivered (messages st.outbox)
unfolding drain
drain_refines outside settings config sender channel deadline fuel st st' none_yet h =
    let start : messages st.outbox ≡ without_keys st.delivered (messages st.outbox) =
      rw none_yet (sym (without_keys-none (messages st.outbox))) in
    rw h at (
      drain_regions-ReturnsOwing outside settings config sender channel deadline fuel
        (messages st.outbox) (pending_regions channel (outside.now st.asked) st.outbox)
        (record st { asked = st.asked + 1 }) start)
