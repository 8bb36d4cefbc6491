-- ===== src/Delivery/Channels.antt =====
-- `_drain`: the regions of a channel in turn, each behind its own breaker.
pub mod Laws
use qiskit_serverless.Base.{
  List, Option, String, [], filter, if◌then◌else◌, leb, map, none, not, opt_str_eq, some, ℕ, ◌&&◌,
  ◌+◌, ◌∷◌,
}
use qiskit_serverless.Delivery.{
  DrainState, Outside, RetryConfig, Sender, breaker_is_open, drain_region, may_continue,
}
use qiskit_serverless.Breaker.{Settings}
use qiskit_serverless.Fleets.{RegionBreakers, put_breaker}
use qiskit_serverless.Base.Sort.{sort_by}
use qiskit_serverless.Models.{Channel, Outbox, channel_eq}

-- What the drain of a channel changes: the breakers belong to the destination, one for each region.
pub record ChannelState : Type 0 where
  pub outbox : List Outbox
  pub breakers : RegionBreakers
  pub asked : ℕ
  pub delivered : List ℕ

-- The first of each region, in order.
unfoldable pub distinct_regions : List (Option String) → List (Option String)
distinct_regions [] = []
distinct_regions (region ∷ regions) =
    region ∷ filter (λ r. not (opt_str_eq r region)) (distinct_regions regions)

-- `_pending_regions`: the regions of the rows that are due, the one with the oldest row first.
unfoldable pub pending_regions : Channel → ℕ → List Outbox → List (Option String)
pending_regions channel now outbox = distinct_regions (
    map (λ r. r.region)
      (sort_by (λ r. r.created)
        (filter
          (λ r. channel_eq r.channel channel && (not r.unrecoverable && leb r.next_attempt_at now))
          outbox)))

-- The state of one region's drain, and back.
abbrev pub enter_region : Option String → ChannelState → DrainState
enter_region region st = record {
  outbox = st.outbox;
  breaker = st.breakers region;
  asked = st.asked;
  delivered = st.delivered;
}

abbrev pub leave_region : Option String → ChannelState → DrainState → ChannelState
leave_region region st v = record {
  outbox = v.outbox;
  breakers = put_breaker region v.breaker st.breakers;
  asked = v.asked;
  delivered = v.delivered;
}

abbrev pub after_region :
    Option String
    → ChannelState
    → Option DrainState
    → (ChannelState → Option ChannelState)
    → Option ChannelState
after_region region st none next = none
after_region region st (some v) next = next (leave_region region st v)

module _ (outside : Outside) (settings : Settings) (config : RetryConfig) (sender : Sender)
    (channel : Channel) (deadline fuel : ℕ) where
  unfoldable pub drain_regions : List (Option String) → ChannelState → Option ChannelState
  drain_regions [] st = some st
  drain_regions (region ∷ regions) st =
      let go_on = may_continue outside deadline st.asked in
      let told = record st { asked = st.asked + 1 } in
      let (open_now, v) = breaker_is_open outside settings (enter_region region told) in
      let skipped = drain_regions regions (leave_region region told v) in
      let drained =
        after_region region told
          (drain_region outside settings config sender channel region deadline fuel v)
          (drain_regions regions) in
      if go_on then (if open_now then skipped else drained) else some told

  -- `_drain`
  unfoldable pub drain : ChannelState → Option ChannelState
  drain st =
      drain_regions (pending_regions channel (outside.now st.asked) st.outbox)
        (record st { asked = st.asked + 1 })
