-- ===== src/Connector/Worker/Examples.antt =====
-- A worker thread that has ended once.
use okx_cpp_api.Prelude.{ℕ, ◌≡◌, refl, true, some, List, [], ◌∷◌}
use okx_cpp_api.Result.{ok}
use okx_cpp_api.Connector.Worker.{
  Connector, fetching, Event, asked, fetched, cleared, new_connector, get_funding_rates, happen,
  event_effect, login, store_rates, join_worker,
}
use okx_cpp_api.Connector.Worker.Latest.{last_fetched, IsDestroyed, get_funding_rates-latest}

-- A call, the end of its fetch, another call, and a fetch that goes on.
abbrev events : List (Event ℕ ℕ)
events = asked ∷ fetched 4 (ok (7 ∷ 8 ∷ [])) ∷ cleared ∷ asked ∷ []

abbrev at_work : Connector ℕ ℕ
at_work = record {
  rest_client = 4;
  funding_rates = 7 ∷ 8 ∷ [];
  worker_thread = fetching;
  is_running = true;
}

get_funding_rates-latest_example :
    (c' : Connector ℕ ℕ) × (get_funding_rates at_work ≡ some (last_fetched [] events, c'))
    × (c'.is_running ≡ true)
    × IsDestroyed at_work
unfolding happen event_effect new_connector get_funding_rates join_worker login store_rates
get_funding_rates-latest_example = get_funding_rates-latest 3 events at_work refl
