-- ===== src/Turn/Batch/Answered.antt =====
-- When the messages that a step adds to the transcript answer tool calls one by one, and how the steps
-- that do so are composed.
use pi_agent_core_rs.Prelude.{ℕ, List, [], ◌∷◌, ◌++◌, map, ◌≡◌, refl, sym, sat_add}
use mathlib.Core.List.{append-nil, append_assoc, map-append}
use pi_agent_core_rs.State.Types.{AgentToolCall, ToolResultMessage, tool_result}
use pi_agent_core_rs.Agent.State.{CoreError}
use pi_agent_core_rs.Turn.Host.{Turn}
use pi_agent_core_rs.Turn.Exec.{Result, ok, err, Exec, ◌>>=◌}
use pi_agent_core_rs.Turn.Exec.Quiet.{Quiet}

-- The messages answer the calls one by one, with the IDs from a number on.
abbrev pub AnswersFrom : ℕ → List AgentToolCall → List ToolResultMessage → Type 0
AnswersFrom id [] [] = Unit
AnswersFrom id (call ∷ calls) (m ∷ ms) =
    (m.id ≡ id)
    × (m.tool_call_id ≡ call.id)
    × (m.tool_name ≡ call.name)
    × AnswersFrom (sat_add id 1) calls ms
AnswersFrom id _ _ = ⊥

-- The next ID after one message for each call.
abbrev pub id_after : ℕ → List AgentToolCall → ℕ
id_after id [] = id
id_after id (_ ∷ calls) = id_after (sat_add id 1) calls

abbrev pub NoneLeft : {A : Type 0} → Result A → List AgentToolCall → Type 0
NoneLeft (ok _) left = left ≡ []
NoneLeft (err _) left = Unit

-- The transcript grew by answers to the first calls, and to all where a value is returned.
pub record Answered {W A : Type 0} (calls : List AgentToolCall) (t : Turn W) (r : Turn W × Result A)
    : Type 0 where
  pub answered : List AgentToolCall
  pub left : List AgentToolCall
  pub splits : calls ≡ answered ++ left
  pub answers : List ToolResultMessage
  pub appended : r.0.state.messages ≡ t.state.messages ++ map tool_result answers
  pub in_order : AnswersFrom t.state.next_message_id answered answers
  pub next_message_id : r.0.state.next_message_id ≡ id_after t.state.next_message_id answered
  pub complete : NoneLeft r.1 left

pub record Answering {W A : Type 0} (calls : List AgentToolCall) (m : Exec W A) : Type 0 where
  pub at : (t : Turn W) → Answered calls t (m t)

AnswersFrom-append :
    (id : ℕ) (calls : List AgentToolCall) (ms : List ToolResultMessage)
    → (calls' : List AgentToolCall) (ms' : List ToolResultMessage) → AnswersFrom id calls ms
    → AnswersFrom (id_after id calls) calls' ms'
    → AnswersFrom id (calls ++ calls') (ms ++ ms')
AnswersFrom-append id [] [] calls' ms' h h' = h'
AnswersFrom-append id [] (m ∷ ms) calls' ms' h h' = elim h [ ]
AnswersFrom-append id (call ∷ calls) [] calls' ms' h h' = elim h [ ]
AnswersFrom-append id (call ∷ calls) (m ∷ ms) calls' ms' (e, e', e'', h) h' =
    (e, e', e'', AnswersFrom-append (sat_add id 1) calls ms calls' ms' h h')

id_after-append :
    (id : ℕ) (calls calls' : List AgentToolCall)
    → id_after id (calls ++ calls') ≡ id_after (id_after id calls) calls'
id_after-append id [] calls' = refl
id_after-append id (call ∷ calls) calls' = id_after-append (sat_add id 1) calls calls'

module _ {W A B : Type 0} where
  -- A step that returns, and what comes behind it.
  Answered-join :
      (calls calls' : List AgentToolCall) (t t' : Turn W) (a : A) (r : Turn W × Result B)
      → Answered calls t (t', ok a)
      → Answered calls' t' r
      → Answered (calls ++ calls') t r
  Answered-join calls calls' t t' a r h h' = record {
    answered = h.answered ++ h'.answered;
    left = h'.left;
    splits = rw (h.splits, h.complete, append-nil, h'.splits) (sym (append_assoc h.answered _ _));
    answers = h.answers ++ h'.answers;
    appended = rw (h'.appended, h.appended, map-append) (append_assoc t.state.messages _ _);
    in_order =
        AnswersFrom-append _ h.answered h.answers h'.answered h'.answers h.in_order
          (rw (← h.next_message_id) h'.in_order);
    next_message_id =
        rw (id_after-append t.state.next_message_id, ← h.next_message_id) h'.next_message_id;
    complete = h'.complete;
  }

  -- A step that fails leaves the calls behind it too.
  Answered-stop :
      (calls calls' : List AgentToolCall) (t t' : Turn W) (e : CoreError)
      → Answered {A = A} calls t (t', err e)
      → Answered {A = B} (calls ++ calls') t (t', err e)
  Answered-stop calls calls' t t' e h = record {
    answered = h.answered;
    left = h.left ++ calls';
    splits = rw h.splits (append_assoc h.answered _ _);
    answers = h.answers;
    appended = h.appended;
    in_order = h.in_order;
    next_message_id = h.next_message_id;
    complete = tt;
  }

  Answered-continue :
      (calls calls' : List AgentToolCall) (f : A → Exec W B)
      → (t t' : Turn W) (r : Result A) → Answered calls t (t', r)
      → ((a : A) → Answering calls' (f a))
      → Answered (calls ++ calls') t (((λ (_ : Turn W). (t', r)) >>= f) t)
  unfolding ◌>>=◌
  Answered-continue calls calls' f t t' (ok a) h af =
      Answered-join calls calls' t t' a _ h ((af a).at t')
  Answered-continue calls calls' f t t' (err e) h af = Answered-stop calls calls' t t' e h

  pub Answering-bind :
      (calls calls' : List AgentToolCall) (m : Exec W A) (f : A → Exec W B)
      → Answering calls m
      → ((a : A) → Answering calls' (f a))
      → Answering (calls ++ calls') (m >>= f)
  unfolding ◌>>=◌
  Answering-bind calls calls' m f am af = record {
    at = λ t. Answered-continue calls calls' f t (m t).0 (m t).1 (am.at t) af;
  }

NoneLeft-nil : {A : Type 0} (r : Result A) → NoneLeft r []
NoneLeft-nil (ok a) = refl
NoneLeft-nil (err e) = tt

module _ {W A : Type 0} where
  pub Answering-end :
      (calls : List AgentToolCall) (m : Exec W A) → Answering (calls ++ []) m → Answering calls m
  Answering-end calls m am = rw append-nil at am

  pub Answering-Quiet : (m : Exec W A) → Quiet m → Answering [] m
  Answering-Quiet m q = record {
    at = λ t. record {
      answered = [];
      left = [];
      splits = refl;
      answers = [];
      appended = rw append-nil (q.at t).messages;
      in_order = tt;
      next_message_id = (q.at t).next_message_id;
      complete = NoneLeft-nil (m t).1;
    };
  }
