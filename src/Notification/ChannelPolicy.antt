-- ===== src/Notification/ChannelPolicy.antt =====
-- api/src/notification/domain/channel-policy.ts. Every event of the type has its policy, so the
-- source's branch for an event with none is not reached.
use sobkichu.Prelude.{Bool, true, false, List, [], ◌∷◌, ◌++◌, if◌then◌else◌, String}
use sobkichu.Database.{Channel}

pub data NotifiableEvent : Type 0 where
  otp order_confirmed payment_received payment_failed out_for_delivery delivered : NotifiableEvent

pub record Policy : Type 0 where
  pub sms : Bool
  pub push : Bool
  pub template_key : String

unfoldable pub policies : NotifiableEvent → Policy
policies otp = record { sms = true; push = false; template_key = "notification.otp" }
policies order_confirmed = record {
  sms = true;
  push = true;
  template_key = "notification.order.confirmed";
}
policies payment_received = record {
  sms = true;
  push = true;
  template_key = "notification.payment.received";
}
policies payment_failed = record {
  sms = true;
  push = true;
  template_key = "notification.payment.failed";
}
policies out_for_delivery = record {
  sms = true;
  push = true;
  template_key = "notification.delivery.out_for_delivery";
}
policies delivered = record {
  sms = true;
  push = true;
  template_key = "notification.delivery.delivered";
}

unfoldable pub channels_for : NotifiableEvent → List Channel
unfolding policies
channels_for event =
    let policy = policies event in
    (if policy.push then Channel.push ∷ [] else []) ++ (if policy.sms then Channel.sms ∷ [] else [])

unfoldable pub template_key_for : NotifiableEvent → String
unfolding policies
template_key_for event = (policies event).template_key

unfoldable pub known_events : List NotifiableEvent
known_events =
    otp ∷ order_confirmed ∷ payment_received ∷ payment_failed ∷ out_for_delivery ∷ delivered ∷ []

unfoldable pub requires_sms : NotifiableEvent → Bool
unfolding policies
requires_sms event = (policies event).sms
