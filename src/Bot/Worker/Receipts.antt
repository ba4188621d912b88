-- ===== src/Bot/Worker/Receipts.antt =====
-- The receipts of the worker for the messages that it handles to the end.
use sjmb_slack.Prelude.{
  ℕ, ◌≡◌, refl, ap, ◌∙◌, Bool, true, false, List, [], ◌∷◌, ◌++◌, map, map-append, Option, none,
  some, leb, Bool-cases, inl, inr,
}
use sjmb_slack.Prelude.Text.{Text}
use sjmb_slack.Url.{UrlParsers}
use sjmb_slack.Bot.Intake.{QueuedMessage}
use sjmb_slack.Bot.Worker.{
  Worker, Replies, handle_msg, Event, drain, received, receipt, handle_one, handle_messages,
}

module _ (p : UrlParsers) (captures : Text → List (Option Text)) where
  -- Those who wait for a message of the events, in the order of the queue.
  abbrev pub waiters : List (Event p captures) → List ℕ
  waiters [] = []
  waiters (drain ∷ es) = waiters es
  waiters (received m now r ∷ es) =
      map (λ x. x.0) (receipt p captures m.completion true) ++ waiters es

  receipt-waiter :
      (o : Option ℕ) (b : Bool)
      → map (λ x. x.0) (receipt p captures o b) ≡ map (λ x. x.0) (receipt p captures o true)
  receipt-waiter none b = refl
  receipt-waiter (some w) b = refl

  handle_one-waiter :
      (m : QueuedMessage) (now : ℕ) (r : Replies) (s : Worker)
      → map (λ x. x.0) (handle_one p captures m now r s).0
        ≡ map (λ x. x.0) (receipt p captures m.completion true)
  unfolding handle_one
  handle_one-waiter m now r s = elim (Bool-cases (leb m.expires_at now)) [
    | inl old ↦ rw (old, handle_one) (receipt-waiter m.completion false)
    | inr new ↦ rw (new, handle_one) (receipt-waiter m.completion (handle_msg p captures r m s).0)
  ]

  -- Of the messages that the worker handles to the end, each that someone waits for is answered exactly
  -- once, in the order of the queue, whether it had expired, was stored or failed. What is discarded when
  -- the drain of the queue runs out of time is not among these messages.
  pub handle_messages-waiters :
      (es : List (Event p captures)) (s : Worker)
      → map (λ x. x.0) (handle_messages p captures es s).0 ≡ waiters es
  unfolding handle_messages
  handle_messages-waiters [] s = refl
  handle_messages-waiters (drain ∷ es) s = handle_messages-waiters es s
  handle_messages-waiters (received m now r ∷ es) s =
      map-append (λ x. x.0) (handle_one p captures m now r s).0
        (handle_messages p captures es (handle_one p captures m now r s).1).0
      ∙ ap
          (λ l.
            l
            ++ map (λ x. x.0) (handle_messages p captures es (handle_one p captures m now r s).1).0)
          (handle_one-waiter m now r s)
      ∙ ap (λ l. map (λ x. x.0) (receipt p captures m.completion true) ++ l)
          (handle_messages-waiters es (handle_one p captures m now r s).1)
