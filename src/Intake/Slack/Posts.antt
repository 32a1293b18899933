-- ===== src/Intake/Slack/Posts.antt =====
-- How many messages the handler of agent/src/agent/intake/slack.py posts, and what it answers.
use mathlib.Core.Path.{subst}
use alph_e.Common.{
  ℕ, ◌+◌, ◌≤◌, ◌<◌, String, ◌≡◌, refl, sym, ap, ◌∙◌, append_assoc, append-nil, Option, List, [],
  ◌∷◌, ◌++◌, length, Result, ok, err, arith, truthy, length-append, inl, inr, Bool-cases,
  if◌then◌else◌,
}
use alph_e.Intake.Slack.{Block, EventValue}
use alph_e.Intake.Slack.Web.{
  Slack, Post, SlackClient, Session, request, Web, ◌>>=◌, catching, post_message,
}

-- What a computation does to the posts: it adds at most n of them at the end, it returns only what
-- satisfies P, and it raises only what Slack gives for one of the posts added.
pub record Posting {A : Type 0} (slack : Slack) (P : A → Type 0) (n : ℕ) (s : Session)
    (out : Result String A × Session) : Type 0 where
  pub added : List Post
  pub split : out.1.posts ≡ s.posts ++ added
  pub few : length added ≤ n
  pub returned : (a : A) → out.0 ≡ ok a → P a
  pub raised :
      (e : String)
      → out.0 ≡ err e
      → (k : ℕ) × (slack.answer k ≡ err e) × (length s.posts ≤ k) × (k < length out.1.posts)

-- A result is not both a value and an exception.
ok_or_err : {A : Type 0} (r : Result String A) (a : A) (e : String) → r ≡ ok a → r ≡ err e → ⊥
ok_or_err r a e p q = ground (arith, p, q)

module _ (slack : Slack) where
  -- A computation that leaves the posts alone.
  pub Posting-quiet :
      {A : Type 0} (P : A → Type 0) (n : ℕ) (s s' : Session) (a : A)
      → s'.posts ≡ s.posts
      → P a
      → Posting slack P n s (ok a, s')
  Posting-quiet P n s s' a e h = record {
    added = [];
    split = e ∙ sym (append-nil s.posts);
    few = omega arith;
    returned = λ b q. subst P (ground (arith, q)) h;
    raised = λ x q. absurd (ok_or_err _ a x refl q);
  }

  -- What is added after a computation.
  Posting-trans :
      {A B : Type 0} (Q : A → Type 0) (P : B → Type 0) (n k : ℕ) (s s' : Session)
      (r : Result String A) (out : Result String B × Session)
      → Posting slack Q n s (r, s')
      → Posting slack P k s' out
      → Posting slack P (n + k) s out
  Posting-trans Q P n k s s' r out a b = record {
    added = a.added ++ b.added;
    split =
        b.split ∙ (ap (λ posts. posts ++ b.added) a.split ∙ append_assoc s.posts a.added b.added);
    few = omega (arith, length-append a.added b.added, a.few, b.few);
    returned = b.returned;
    raised =
        λ e q. let (i, answer, after, before) = b.raised e q in (i, answer, longer i after, before);
  }
    where
      longer : (i : ℕ) → length s'.posts ≤ i → length s.posts ≤ i
      longer i h =
          omega (arith, h, ap (λ posts. length posts) a.split, length-append s.posts a.added)

  pub >>=-Posting :
      {A B : Type 0} (Q : A → Type 0) (P : B → Type 0) (n k : ℕ) (m : Web A) (f : A → Web B)
      (s : Session)
      → Posting slack Q n s (m s)
      → ((a : A) → Q a → (s' : Session) → Posting slack P k s' (f a s'))
      → Posting slack P (n + k) s ((m >>= f) s)
  unfolding ◌>>=◌
  >>=-Posting {A = A} {B = B} Q P n k m f s h g = go (m s) h
    where
      go :
          (r : Result String A × Session)
          → Posting slack Q n s r
          → Posting slack P (n + k) s (elim r.0 as (λ x. Result String B × Session) [
            | ok a ↦ f a r.1
            | err e ↦ (err e, r.1)
          ])
      go (ok a, s') q = Posting-trans Q P n k s s' (ok a) (f a s') q (g a (q.returned a refl) s')
      go (err e, s') q = record {
        added = q.added;
        split = q.split;
        few = omega (arith, q.few);
        returned = λ b x. absurd (ok_or_err _ b e x refl);
        raised = λ x y. q.raised x (ground (arith, y));
      }

  pub catching-Posting :
      {A : Type 0} (P : A → Type 0) (n k : ℕ) (m : Web A) (handler : String → Web A) (s : Session)
      → Posting slack P n s (m s)
      → ((e : String) (s' : Session) → Posting slack P k s' (handler e s'))
      → Posting slack P (n + k) s (catching m handler s)
  unfolding catching
  catching-Posting {A = A} P n k m handler s h g = go (m s) h
    where
      go :
          (r : Result String A × Session)
          → Posting slack P n s r
          → Posting slack P (n + k) s (elim r.0 as (λ x. Result String A × Session) [
            | ok a ↦ (ok a, r.1)
            | err e ↦ handler e r.1
          ])
      go (ok a, s') q = record {
        added = q.added;
        split = q.split;
        few = omega (arith, q.few);
        returned = q.returned;
        raised = q.raised;
      }
      go (err e, s') q = Posting-trans P P n k s s' (err e) (handler e s') q (g e s')

-- A client without a token posts nothing.
abbrev pub post_cost : SlackClient → ℕ
post_cost client = if truthy client.token then 1 else 0

-- any value
abbrev pub Anything : {A : Type 0} → A → Type 0
Anything a = Unit

pub post_message-Posting :
    (slack : Slack) (client : SlackClient) (channel text : String) (thread : Option EventValue)
    (blocks : List Block) (s : Session)
    → Posting slack Anything
        (post_cost client)
        s
        (post_message slack client channel text thread blocks s)
unfolding post_message
post_message-Posting slack client channel text thread blocks s =
    elim (Bool-cases (truthy client.token)) [
      | inr h ↦ rw h (Posting-quiet slack Anything _ s s _ refl tt)
      | inl h ↦ rw h (record {
        added = sent ∷ [];
        split = refl;
        few = omega arith;
        returned = λ a q. tt;
        raised = λ e q.
            (length s.posts, q, omega arith, omega (arith, length-append s.posts (sent ∷ [])));
      })
    ]
  where
    sent : Post
    sent = request client channel text thread blocks
