-- ===== src/Telegram/Feedback/Settled.antt =====
-- A notification from the shop to Telegram and back: apps/notifications/telegram.py,
-- bot/telegram_bot/outbound and apps/notifications/telegram_delivery.py together.
use palingames.Base.{
  Result, ok, err, ◌≡◌, ℕ, zero, suc, String, Bool, true, false, Option, none, some, List, find,
  ◌==◌,
}
use palingames.Notifications.Outbox.{Status}
use palingames.Notifications.Enqueue.{OutboxRow}
use palingames.Notifications.Delivery.{
  FeedbackError, is_delivering, process_ack_entry, process_failed_entry,
}
use palingames.Telegram.Messages.{BotReply, OutboundMessage, Settings, TelegramDestination}
use palingames.Telegram.Messages.Published.{message_of}
use palingames.Telegram.Outbound.{Delivery, Published}
use palingames.Telegram.Feedback.{read_entry}

abbrev pub arrives_by : Bool → BotReply → Bool
arrives_by rest (BotReply.message id) = true
arrives_by rest (BotReply.retry_after n) = rest
arrives_by rest (BotReply.network_error e) = rest
arrives_by rest _ = false

-- Whether one of the next attempts reaches the chat, before Telegram refuses the message.
abbrev pub arrives : (ℕ → BotReply) → ℕ → ℕ → Bool
arrives replies zero attempt = false
arrives replies (suc left) attempt =
    arrives_by (arrives replies left (suc attempt)) (replies attempt)

-- The row with this number in the rows afterwards.
abbrev pub row_after : ℕ → Result FeedbackError (List OutboxRow) → Option OutboxRow
row_after n (ok rows) = find (λ (row : OutboxRow). row.id == n) rows
row_after n (err e) = none

-- What the shop does with an answer, or with none.
abbrev pub shop_reads :
    ℕ → List OutboxRow → Option Published → Result FeedbackError (List OutboxRow)
shop_reads at rows none = ok rows
shop_reads at rows (some (Published.ack fields)) = process_ack_entry at (read_entry fields) rows
shop_reads at rows (some (Published.failure fields)) = process_failed_entry (read_entry fields) rows

-- Whether the message arrived, and the row that the answer leaves.
abbrev pub IsSettled : ℕ → OutboxRow → Bool → Option Published → Option OutboxRow → Type 0
IsSettled at row arrived none after = ⊥
IsSettled at row arrived (some (Published.ack fields)) after =
    (arrived ≡ true)
    × (after
        ≡ some (record row {
          state = record row.state { status = Status.sent; sent_at = some at; last_error = "" };
        }))
IsSettled at row arrived (some (Published.failure fields)) after =
    (arrived ≡ false)
    × ((error : String) × (after
          ≡ some (record row {
            state = record row.state { status = Status.failed; last_error = error };
          })))

module _ (now : String) (at n : ℕ) (rows : List OutboxRow) (row : OutboxRow)
    (found : find (λ (r : OutboxRow). r.id == n) rows ≡ some row)
    (delivering : is_delivering row.state.status ≡ true) (d : TelegramDestination)
    (text : String) where
  abbrev m : OutboundMessage
  m = message_of d text "outbox" n

  module _ (settings : Settings) (replies : ℕ → BotReply) where
    abbrev IsSettledBy : Bool → Delivery → Type 0
    IsSettledBy arrived delivery =
        IsSettled at row arrived delivery.answer (row_after n (shop_reads at rows delivery.answer))
