-- ===== src/Transport/Replies.antt =====
-- src/transport: the replies to commands. A channel is owed the answers of its kind that were sent on
-- it and that are still pending on it; the operations of the worker state move an answer from the
-- one to the other.
use cyphal_service.Common.{
  ℕ, ◌+◌, ◌≤◌, ◌≡◌, ◌∙◌, ap, Bool, false, Option, none, some, List, [], ◌∷◌, ◌++◌, arith, ◌==◌,
  if◌then◌else◌, Text, Result,
}
use cyphal_service.Transport.State.{
  WorkerState, PendingGetInfo, Sent, nodes, info, diagnostics, allocations, GetInfoResult,
  on_get_info_response, check_get_info_timeout, TransportCommand, list_nodes, get_info,
  diagnostics_of, list_allocations,
}
use cyphal_service.Transport.Worker.{Worker, Round, send}

-- A command's channel for its answer, with the kind of answer that the channel takes.
pub data ReplyChannel : Type 0 where
  for_nodes : ℕ → ReplyChannel
  for_info : ℕ → ReplyChannel
  for_diagnostics : ℕ → ReplyChannel
  for_allocations : ℕ → ReplyChannel

unfoldable pub same_channel : ReplyChannel → ReplyChannel → Bool
same_channel (for_nodes c) (for_nodes d) = c == d
same_channel (for_info c) (for_info d) = c == d
same_channel (for_diagnostics c) (for_diagnostics d) = c == d
same_channel (for_allocations c) (for_allocations d) = c == d
same_channel _ _ = false

abbrev pub answered_on : Sent → ReplyChannel
answered_on (nodes c x) = for_nodes c
answered_on (info c x) = for_info c
answered_on (diagnostics c x) = for_diagnostics c
answered_on (allocations c x) = for_allocations c

abbrev pub is_on : ReplyChannel → ReplyChannel → ℕ
is_on ch c = if same_channel c ch then 1 else 0

-- The answers that were sent on a channel.
abbrev pub count_sent : ReplyChannel → List Sent → ℕ
count_sent ch [] = 0
count_sent ch (s ∷ ss) = is_on ch (answered_on s) + count_sent ch ss

abbrev pub pending_on : ReplyChannel → Option PendingGetInfo → ℕ
pending_on ch none = 0
pending_on ch (some p) = is_on ch (for_info p.reply)

abbrev pub owed : {Conn Node : Type 0} → Worker Conn Node → ReplyChannel → ℕ
owed w ch = count_sent ch w.sent + pending_on ch w.state.pending_get_info

abbrev pub asked_on : TransportCommand → ReplyChannel
asked_on (list_nodes c) = for_nodes c
asked_on (get_info i c) = for_info c
asked_on (diagnostics_of c) = for_diagnostics c
asked_on (list_allocations c) = for_allocations c

abbrev pub asks_on : ReplyChannel → TransportCommand → ℕ
asks_on ch c = is_on ch (asked_on c)

abbrev pub asked : ReplyChannel → List (ℕ × TransportCommand) → ℕ
asked ch [] = 0
asked ch ((now, c) ∷ cs) = asks_on ch c + asked ch cs

abbrev pub asked_in : ReplyChannel → List Round → ℕ
asked_in ch [] = 0
asked_in ch (r ∷ rs) = asked ch r.commands + asked_in ch rs

pub count_sent-append :
    (ch : ReplyChannel) (xs ys : List Sent)
    → count_sent ch (xs ++ ys) ≡ count_sent ch xs + count_sent ch ys
count_sent-append ch [] ys = omega arith
count_sent-append ch (x ∷ xs) ys = omega (arith, count_sent-append ch xs ys)

pub on_get_info_response-owed :
    (s : WorkerState) (result : Result GetInfoResult Text) (ch : ReplyChannel)
    → count_sent ch (on_get_info_response s result).1
        + pending_on ch (on_get_info_response s result).0.pending_get_info
      ≡ pending_on ch s.pending_get_info
unfolding on_get_info_response
on_get_info_response-owed s result ch = ground arith

pub check_get_info_timeout-owed :
    (s : WorkerState) (now : ℕ) (ch : ReplyChannel)
    → count_sent ch (check_get_info_timeout s now).1
        + pending_on ch (check_get_info_timeout s now).0.pending_get_info
      ≡ pending_on ch s.pending_get_info
unfolding check_get_info_timeout
check_get_info_timeout-owed s now ch = ground arith

pub send-owed :
    {Conn Node : Type 0} (w : Worker Conn Node) (s : Sent) (ch : ReplyChannel)
    → owed (send w s) ch ≡ owed w ch + is_on ch (answered_on s)
send-owed w s ch = omega (arith, count_sent-append ch w.sent (s ∷ []))

-- The channel of a command is owed one answer more, and no other is: exactly, if no request was
-- pending, and at most, if one was, which the new one may replace.
abbrev pub Asks :
    {Conn Node : Type 0} → Worker Conn Node → TransportCommand → Worker Conn Node → Type 0
Asks w c w' =
    (ch : ReplyChannel)
    → (owed w' ch ≤ owed w ch + asks_on ch c)
      × (w.state.pending_get_info ≡ none → owed w' ch ≡ owed w ch + asks_on ch c)

-- A command that is answered at once.
pub send-Asks :
    {Conn Node : Type 0} (w : Worker Conn Node) (s : Sent) (c : TransportCommand)
    → ((ch : ReplyChannel) → is_on ch (answered_on s) ≡ asks_on ch c)
    → Asks w c (send w s)
send-Asks w s c same ch =
    let e : owed (send w s) ch ≡ owed w ch + asks_on ch c =
      send-owed w s ch ∙ ap (λ (n : ℕ). owed w ch + n) (same ch) in
    (omega (arith, e), λ h. e)
