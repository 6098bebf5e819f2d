-- ===== src/Gui/ViewState.antt =====
-- crates/gui/src/view_state.rs: the filter and the order that the user asks for.
use text.Mathlib.Text.{◌==◌ as str_eq}
use yarisugi.Prelude.{ℕ, Bool, true, false, List, Option, none, String, if◌then◌else◌}
use yarisugi.Storage.Store.{DenseNodeStore, CountryCode}
use yarisugi.Storage.Metrics.{MetricsArena}
use yarisugi.Storage.Query.{
  SortCriteria, latency_asc, latency_desc, country_asc, name_asc, health_score_desc,
  query_with_metrics,
}

pub record ViewState : Type 0 where
  pub search_text : String
  pub country_filter : Option CountryCode
  pub subscription_filter : Option ℕ
  pub sort : SortCriteria

unfoldable pub default_view : ViewState
default_view = record {
  search_text = "";
  country_filter = none;
  subscription_filter = none;
  sort = latency_asc;
}

unfoldable pub projection :
    (String → String) → ViewState → DenseNodeStore → MetricsArena → Option (List ℕ)
unfolding query_with_metrics
projection to_lowercase view store metrics =
    query_with_metrics to_lowercase store metrics view.search_text view.country_filter
      view.subscription_filter view.sort

unfoldable pub set_sort_name : ViewState → String → ViewState
set_sort_name view name =
    let criterion =
      if str_eq name "country"
      then country_asc
      else if str_eq name "name"
      then name_asc
      else if str_eq name "health"
      then health_score_desc
      else latency_asc in
    record view { sort = criterion }

unfoldable pub sort_is_metric_dependent : ViewState → Bool
sort_is_metric_dependent view = elim view.sort [
  | latency_asc ↦ true
  | latency_desc ↦ true
  | country_asc ↦ false
  | name_asc ↦ false
  | health_score_desc ↦ true
]
