-- ===== src/Analytics/Funnel.antt =====
-- `execute_conversion_funnel_analysis`: what every user reached on every day, and of every day how many
-- users reached each step. A rate is given as the two numbers that are divided.
pub mod Users
use streaming_lab.Prelude.{
  ℕ, ◌+◌, ◌≡◌, refl, ap, sym, ◌∙◌, Bool, true, false, ◌&&◌, ◌||◌, Option, none, some, List, [], ◌∷◌,
  map, filter, length, is_some, ◌==◌, ltb, arith, nat_eq, pair_eq, maybe_eq, Bool-cases,
  Option-cases, inl, inr, All, if◌then◌else◌, Eq,
}
use streaming_lab.Text.{Text}
use streaming_lab.Dict.{Dict, lookup, insert}
use streaming_lab.Dict.Laws.{Distinct}
use streaming_lab.Sessions.Model.{mentions}
use streaming_lab.Analytics.Sql.{
  KafkaEvent, group_by, select, same, member, distinct_values, not_null, count_distinct,
  count_where, any, has_type, day_of, rate,
}
use streaming_lab.Analytics.Grouping.{existing, aggregated, lookup-grouped, grouped-Distinct}
use streaming_lab.Analytics.Daily.{has_user}

-- `MAX(CASE WHEN … THEN 1 ELSE 0 END)` is 1 when an event passes the test.
pub record UserFunnelSteps : Type 0 where
  pub viewed_product : Bool
  pub added_to_cart : Bool
  pub started_checkout : Bool
  pub completed_purchase : Bool

abbrev pub product_path : Text
product_path = b'/' ∷ b'p' ∷ b'r' ∷ b'o' ∷ b'd' ∷ b'u' ∷ b'c' ∷ b't' ∷ b'/' ∷ []

-- `url LIKE '%/product/%'`, which is not true of NULL
abbrev pub like_product : Option Text → Bool
like_product none = false
like_product (some u) = mentions product_path u

unfoldable pub views_product : KafkaEvent → Bool
views_product r = has_type "page_view" r && like_product r.url

abbrev pub UserDate : Type 0
UserDate = Option ℕ × ℕ

unfoldable pub user_date : KafkaEvent → UserDate
user_date r = (r.user_id, day_of r)

unfoldable pub steps_of : UserDate → List KafkaEvent → UserFunnelSteps
steps_of k rows = record {
  viewed_product = any views_product rows;
  added_to_cart = any (has_type "add_to_cart") rows;
  started_checkout = any (has_type "checkout") rows;
  completed_purchase = any (has_type "purchase") rows;
}

unfoldable pub user_funnel_steps : List KafkaEvent → Dict UserDate UserFunnelSteps
user_funnel_steps rows = select steps_of (group_by user_date (filter has_user rows))

pub record ConversionFunnel : Type 0 where
  pub total_users : ℕ
  pub users_viewed_product : ℕ
  pub users_added_to_cart : ℕ
  pub users_started_checkout : ℕ
  pub users_completed_purchase : ℕ
  pub product_to_cart_rate : Option (ℕ × ℕ)
  pub cart_to_checkout_rate : Option (ℕ × ℕ)
  pub checkout_to_purchase_rate : Option (ℕ × ℕ)

unfoldable pub funnel_row : ℕ → ℕ → ℕ → ℕ → ℕ → ConversionFunnel
funnel_row users viewed cart checkout bought = record {
  total_users = users;
  users_viewed_product = viewed;
  users_added_to_cart = cart;
  users_started_checkout = checkout;
  users_completed_purchase = bought;
  product_to_cart_rate = rate cart viewed;
  cart_to_checkout_rate = rate checkout cart;
  checkout_to_purchase_rate = rate bought checkout;
}

abbrev pub StepsRow : Type 0
StepsRow = UserDate × UserFunnelSteps

unfoldable pub funnel_of : ℕ → List StepsRow → ConversionFunnel
funnel_of d rows =
    funnel_row (count_distinct (λ (s : StepsRow). s.0.0) rows)
      (count_where (λ (s : StepsRow). s.1.viewed_product) rows)
      (count_where (λ (s : StepsRow). s.1.added_to_cart) rows)
      (count_where (λ (s : StepsRow). s.1.started_checkout) rows)
      (count_where (λ (s : StepsRow). s.1.completed_purchase) rows)

abbrev pub date_of : StepsRow → ℕ
date_of s = s.0.1

unfoldable pub conversion_funnel : List KafkaEvent → Dict ℕ ConversionFunnel
conversion_funnel rows = select funnel_of (group_by date_of (user_funnel_steps rows))
