-- ===== src/Service/Views/Rebuilt.antt =====
-- The views after `rebuild_projections` (src/approvo/service.py).
use approvo.Base.{ℕ, String}
use approvo.Result.{Result}
use approvo.Models.Request
use approvo.Store.Events.{EventStore}
use approvo.Store.Projections.{ProjectionStore}
use approvo.Service.Monad.{Service}
use approvo.Service.Views.{go_on, rebuild_ids, requests_in}

module _ (service : Service) (p : ProjectionStore) (events : EventStore) (at_time : String) where
  open p use {Views}

  abbrev Outcome : Type 0
  Outcome = Result ℕ × Views

  abbrev next : (ℕ → Views → Outcome) → Outcome → Outcome
  next = go_on service p events at_time

module _ (service : Service) (p : ProjectionStore) (events : EventStore) (reading : ℕ) where
  open p use {Views}

  abbrev as_one_loop : Views → Result ℕ × Views
  as_one_loop views =
      rebuild_ids service p events (service.clock reading) (requests_in service p events) 0
        (p.clear views)
