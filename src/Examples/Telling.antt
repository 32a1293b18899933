-- ===== src/Examples/Telling.antt =====
-- The theorems on what is read, written and told, at concrete inputs.
use Prim.Native.Char.{char}
use Prim.Native.String.{◌∷◌ as cons, ◌++◌}
use text.Mathlib.TextLemmas.{cons-append, nil-append, append_assoc, append_cancel_left}
use alph_e.Common.{
  ℕ, String, ◌≡◌, refl, sym, ap, ◌∙◌, none, some, true, false, delimited, List, [], ◌∷◌, ok, show_ℕ,
  show_ℕ-cancel, show_ℕ-head, starts_digit, ends_value, IsExactWriter, IsFloatWriter, str_in,
  lookup, truthy,
}
use alph_e.Schemas.{IncidentState}
use alph_e.Investigator.Message.{investigator_message}
use alph_e.Investigator.Told.{IsToldAlike, investigator_message-IsToldAlike}
use alph_e.Planner.Message.{planner_message}
use alph_e.Planner.Fenced.{IsFenced, planner_message-IsFenced}
use alph_e.Prompts.{Prompts, read_prompts, load}
use alph_e.Prompts.Load.{IsRole, load-read_prompts}
use alph_e.Intake.{AlertmanagerPayload}
use alph_e.Cli.{Outside, cmd_fire}
use alph_e.Cli.Fire.{IsFired, cmd_fire-IsFired}
use alph_e.Samples.{incident, supply}

-- A way to write floats: the numerator, a point and a zero.
pointed : ℕ → String
pointed x = show_ℕ x ++ ".0"

point : (s : String) → ".0" ++ s ≡ cons (char 0x2e tt) (cons (char 0x30 tt) s)
point s =
    cons-append (char 0x2e tt) "0" s
    ∙ ap (cons (char 0x2e tt))
        (cons-append (char 0x30 tt) "" s ∙ ap (cons (char 0x30 tt)) (nil-append s))

pointed-IsExactWriter : IsExactWriter pointed
unfolding pointed
pointed-IsExactWriter = record {
  starts = λ x s. ap starts_digit (append_assoc (show_ℕ x) ".0" s) ∙ show_ℕ-head x _;
  exact = λ x y s t hs ht e.
      let same =
        show_ℕ-cancel x y (".0" ++ s) (".0" ++ t) (ap starts_digit (point s))
          (ap starts_digit (point t))
          (sym (append_assoc (show_ℕ x) ".0" s) ∙ (e ∙ append_assoc (show_ℕ y) ".0" t)) in
      (same.0, append_cancel_left ".0" s t same.1);
  not_whole = λ n x s t hs ht e.
      let same =
        show_ℕ-cancel n x s (".0" ++ t) (delimited s hs) (ap starts_digit (point t))
          (e ∙ append_assoc (show_ℕ x) ".0" t) in
      no_point s t hs (same.1 ∙ point t);
}
  where
    no_point :
        (s t : String) → ends_value s ≡ true → s ≡ cons (char 0x2e tt) (cons (char 0x30 tt) t) → ⊥
    no_point s t h e = let clash : true ≡ false = sym h ∙ ap ends_value e in cc

-- one text for all floats
halves : ℕ → String
halves x = "0.5"

halves-IsFloatWriter : IsFloatWriter halves
unfolding halves str_in
halves-IsFloatWriter = record { starts = λ x. refl; one_line = λ x. refl }

planner_message-IsFenced_example : IsFenced (planner_message halves incident)
planner_message-IsFenced_example = planner_message-IsFenced halves halves-IsFloatWriter incident

-- the same incident, at a later phase of its work
abbrev later : IncidentState
later = record incident { updated_at = 99 }

investigator_message-IsToldAlike_example : IsToldAlike show_ℕ incident later
unfolding investigator_message
investigator_message-IsToldAlike_example =
    investigator_message-IsToldAlike pointed show_ℕ pointed-IsExactWriter incident later refl

abbrev files : List (String × String)
files = ("planner.md", "Plan.") ∷ ("system.md", "You are careful.") ∷ []

planner-IsRole : IsRole "planner"
unfolding truthy
planner-IsRole = record { named = refl; shared = refl; suffix = refl }

load-read_prompts_example :
    (prompts : Prompts) × (read_prompts (λ s. s) files ≡ ok prompts)
    × (load prompts "planner"
        ≡ ok (record {
          system_prefix = "You are careful.";
          role_prompt = "Plan.";
          cache_key = "You are careful.";
        }))
unfolding lookup
load-read_prompts_example =
    load-read_prompts (λ s. s) files "You are careful." "planner" (refl, (refl, tt)) refl
      planner-IsRole

abbrev payload : AlertmanagerPayload
payload = record {
  version = some "4";
  group_key = none;
  status = "firing";
  receiver = "ops";
  alerts =
      record {
        status = "firing";
        labels = ("service", "checkout") ∷ [];
        annotations = [];
        starts_at = 1;
        ends_at = none;
        fingerprint = none;
      }
      ∷ [];
}

abbrev outside : Outside
outside = record {
  Json = String;
  exists = λ path. ok true;
  read_text = λ path. ok "{}";
  loads = λ s. ok s;
  send = λ json. ok (ok payload);
  run_server = λ host port reload. ok (record { stdout = ""; stderr = ""; code = 0 });
  float_text = halves;
}

cmd_fire-IsFired_example :
    IsFired outside "fixture.json" supply (cmd_fire outside "fixture.json" supply).0
cmd_fire-IsFired_example = cmd_fire-IsFired outside "fixture.json" supply
