-- ===== src/Turn/Response/Shapes.antt =====
-- What the events of a response amount to: their text, their tool calls and their terminal event.
use pi_agent_core_rs.Prelude.{
  List, [], ◌∷◌, ◌++◌, Option, none, some, Text, ◌≡◌, refl, sym, ◌∙◌, ap,
}
use mathlib.Core.List.{append-nil, append_assoc}
use pi_agent_core_rs.State.Types.{StopReason, AgentToolCall}
use pi_agent_core_rs.Turn.Response.{
  ModelStreamEvent, text_delta, tool_call, usage_update, error, context_overflow, aborted, end,
  EventSource, closed, broken, event, Collected, take_event,
}

-- The events of a source.
abbrev pub events : {W : Type 0} → EventSource W → List ModelStreamEvent
events (closed _) = []
events (broken _ _) = []
events (event _ item source) = item ∷ events source

-- The deltas, one after the other.
abbrev pub text_of : List ModelStreamEvent → Text
text_of [] = []
text_of (text_delta delta ∷ items) = delta ++ text_of items
text_of (_ ∷ items) = text_of items

abbrev pub tool_calls_of : List ModelStreamEvent → List AgentToolCall
tool_calls_of [] = []
tool_calls_of (tool_call call ∷ items) = call ∷ tool_calls_of items
tool_calls_of (_ ∷ items) = tool_calls_of items

-- The stop reason of a terminal event.
abbrev pub reason_of : ModelStreamEvent → Option StopReason
reason_of (error _) = some StopReason.error
reason_of (context_overflow _) = some StopReason.error
reason_of (aborted _) = some StopReason.aborted
reason_of (end reason) = some reason
reason_of _ = none

abbrev pub NoTerminal : List ModelStreamEvent → Type 0
NoTerminal [] = Unit
NoTerminal (item ∷ items) = (reason_of item ≡ none) × NoTerminal items

-- The last event, and no other, is terminal.
pub record OneTerminal (items : List ModelStreamEvent) (reason : StopReason) : Type 0 where
  pub body : List ModelStreamEvent
  pub last : ModelStreamEvent
  pub splits : items ≡ body ++ last ∷ []
  pub open_body : NoTerminal body
  pub terminal : reason_of last ≡ some reason

abbrev pub Shape : Option StopReason → List ModelStreamEvent → Option StopReason → Type 0
Shape none items none = NoTerminal items
Shape none items (some reason) = OneTerminal items reason
Shape (some reason) items after = (items ≡ []) × (after ≡ some reason)

Shape-cons :
    (item : ModelStreamEvent) (items : List ModelStreamEvent) (after : Option StopReason)
    → reason_of item ≡ none
    → Shape none items after
    → Shape none (item ∷ items) after
Shape-cons item items none e h = (e, h)
Shape-cons item items (some reason) e h = record {
  body = item ∷ h.body;
  last = h.last;
  splits = ap (◌∷◌ item) h.splits;
  open_body = (e, h.open_body);
  terminal = h.terminal;
}

Shape-last :
    (item : ModelStreamEvent) (items : List ModelStreamEvent) (after : Option StopReason)
    → (reason : StopReason) → reason_of item ≡ some reason
    → Shape (some reason) items after
    → Shape none (item ∷ items) after
Shape-last item items after reason e (e', e'') =
    rw (e', e'') (record { body = []; last = item; splits = refl; open_body = tt; terminal = e })

-- The variables `c'` come from `c` by these events.
abbrev pub Consumes : List ModelStreamEvent → Collected → Collected → Type 0
Consumes items c c' =
    (c'.assistant_text ≡ c.assistant_text ++ text_of items)
    × (c'.tool_calls ≡ c.tool_calls ++ tool_calls_of items)
    × Shape c.reason items c'.reason

pub Consumes-nil : (c : Collected) → Consumes [] c c
Consumes-nil c = (sym (append-nil _), sym (append-nil _), no_events c.reason)
  where
    no_events : (reason : Option StopReason) → Shape reason [] reason
    no_events none = tt
    no_events (some reason) = (refl, refl)

pub Consumes-cons :
    (item : ModelStreamEvent) (items : List ModelStreamEvent) (c c' : Collected)
    → c.reason ≡ none
    → Consumes items (take_event item c) c'
    → Consumes (item ∷ items) c c'
unfolding take_event
Consumes-cons (text_delta delta) items c c' e (h, h', h'') = (
  h ∙ append_assoc c.assistant_text _ _,
  h',
  rw e (Shape-cons (text_delta delta) items _ refl (rw e at h'')),
)
Consumes-cons (tool_call call) items c c' e (h, h', h'') = (
  h,
  h' ∙ append_assoc c.tool_calls _ _,
  rw e (Shape-cons (tool_call call) items _ refl (rw e at h'')),
)
Consumes-cons (usage_update update) items c c' e (h, h', h'') =
    (h, h', rw e (Shape-cons (usage_update update) items _ refl (rw e at h'')))
Consumes-cons (error message) items c c' e (h, h', h'') =
    (h, h', rw e (Shape-last (error message) items _ _ refl h''))
Consumes-cons (context_overflow message) items c c' e (h, h', h'') =
    (h, h', rw e (Shape-last (context_overflow message) items _ _ refl h''))
Consumes-cons (aborted message) items c c' e (h, h', h'') =
    (h, h', rw e (Shape-last (aborted message) items _ _ refl h''))
Consumes-cons (end reason) items c c' e (h, h', h'') =
    (h, h', rw e (Shape-last (end reason) items _ _ refl h''))
