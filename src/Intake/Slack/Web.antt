-- ===== src/Intake/Slack/Web.antt =====
-- `SlackClient` of agent/src/agent/intake/slack.py, and the state of a handler: the supply, and the
-- posts that the client has sent.
use alph_e.Common.{
  ℕ, String, Option, none, some, Bool, false, List, [], ◌∷◌, ◌++◌, length, Result, ok, err, Supply,
  Io, Assoc, or_text, get_or, truthy, not, if◌then◌else◌,
}
use alph_e.Intake.Slack.{Block, EventValue, is_true}

-- A request to `chat.postMessage`, with its bearer token.
pub record Post : Type 0 where
  pub token : String
  pub channel : String
  pub text : String
  pub thread_ts : Option EventValue
  pub blocks : List Block

-- The fields of the answer that the program reads.
pub record SlackReply : Type 0 where
  pub is_ok : Bool
  pub ts : Option String

-- `answer n` is what the request gives that is sent after n others: what it raises, or the answer;
-- `label_error` is what the validation of an alert raises whose labels, taken from an event, are not
-- all texts.
pub record Slack : Type 0 where
  pub env : String → Option String
  pub answer : ℕ → Result String SlackReply
  pub label_error : Assoc EventValue → String

pub record Session : Type 0 where
  pub supply : Supply
  pub posts : List Post

abbrev pub Web : Type 0 → Type 0
Web A = Session → Result String A × Session

infixl 5 ◌>>=◌
unfoldable pub ◌>>=◌ : {A B : Type 0} → Web A → (A → Web B) → Web B
◌>>=◌ m k s = let (r, s') = m s in elim r [ ok a ↦ k a s' | err e ↦ (err e, s') ]

abbrev pub pure : {A : Type 0} → A → Web A
pure a s = (ok a, s)

-- `raise`
abbrev pub raising : {A : Type 0} → String → Web A
raising e s = (err e, s)

abbrev pub of_result : {A : Type 0} → Result String A → Web A
of_result r s = (r, s)

-- `try: m; except Exception as e: handler(e)`
unfoldable pub catching : {A : Type 0} → Web A → (String → Web A) → Web A
catching m handler s = let (r, s') = m s in elim r [ ok a ↦ (ok a, s') | err e ↦ handler e s' ]

-- A computation on the supply alone.
abbrev pub reading : {A : Type 0} → Io A → Web A
reading m s = let (a, supply) = m s.supply in (ok a, record s { supply = supply })

pub record SlackClient : Type 0 where
  pub token : String

-- `SlackClient.__init__`
unfoldable pub new_slack_client : (String → Option String) → Option String → SlackClient
new_slack_client env token = record { token = or_text token (get_or (env "SLACK_BOT_TOKEN") "") }

-- `if thread_ts: payload["thread_ts"] = thread_ts`
abbrev pub thread_field : Option EventValue → Option EventValue
thread_field none = none
thread_field (some thread) = if is_true thread then some thread else none

-- the request that `SlackClient.post_message` sends
abbrev pub request : SlackClient → String → String → Option EventValue → List Block → Post
request client channel text thread_ts blocks = record {
  token = client.token;
  channel = channel;
  text = text;
  thread_ts = thread_field thread_ts;
  blocks = blocks;
}

-- `SlackClient.post_message`
unfoldable pub post_message :
    Slack → SlackClient → String → String → Option EventValue → List Block → Web SlackReply
post_message slack client channel text thread_ts blocks s =
    if not (truthy client.token) then (ok (record { is_ok = false; ts = none }), s) else (
      slack.answer (length s.posts),
      record s { posts = s.posts ++ request client channel text thread_ts blocks ∷ [] },
    )
