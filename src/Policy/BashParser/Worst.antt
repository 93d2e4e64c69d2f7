-- ===== src/Policy/BashParser/Worst.antt =====
-- The category of a command is the worst of its stages, and no command is read unless all of it is.
use secure_openclaw_poc.Common.{
  List, ◌&&◌, ◌++◌, All, Text, [], arith, if◌then◌else◌, false, ltb, refl, sym, text_eq, trim, true,
  ◌∙◌, ◌∷◌, ◌≡◌, ◌≤◌, ◌⊎◌, Bool-cases, inl, inr, subst, ◌↔◌, All-map, ap,
}
use secure_openclaw_poc.Types.{ActionCategory}
use secure_openclaw_poc.Policy.BashParser.{
  classify_single_command, category_order, max_category, worst_of_stages, worst_of_segments,
  classify_bash_command, write, read, dangerous,
}
use secure_openclaw_poc.Policy.BashParser.Signals.{
  has_redirect, has_pipe_to_shell, has_redirect_from,
}
use secure_openclaw_poc.Policy.BashParser.Split.{
  split_chained_commands, split_pipeline, split_chained_commands-nil,
}

abbrev stages_of : List Text → List Text
stages_of [] = []
stages_of (segment ∷ segments) = split_pipeline segment ++ stages_of segments

-- The stages of all pipelines of the command.
abbrev pub stages : Text → List Text
stages command = stages_of (split_chained_commands (trim command))

worst_of_stages-append :
    (w : ActionCategory) (xs ys : List Text)
    → worst_of_stages w (xs ++ ys) ≡ worst_of_stages (worst_of_stages w xs) ys
unfolding worst_of_stages
worst_of_stages-append w [] ys = refl
worst_of_stages-append w (x ∷ xs) ys =
    worst_of_stages-append (max_category w (classify_single_command x)) xs ys

worst_of_segments-stages_of :
    (w : ActionCategory) (segments : List Text)
    → worst_of_segments w segments ≡ worst_of_stages w (stages_of segments)
unfolding worst_of_segments worst_of_stages
worst_of_segments-stages_of w [] = refl
worst_of_segments-stages_of w (s ∷ ss) =
    worst_of_segments-stages_of (worst_of_stages w (split_pipeline s)) ss
    ∙ sym (worst_of_stages-append w (split_pipeline s) (stages_of ss))

max_category-le :
    (a b : ActionCategory)
    → (category_order a ≤ category_order (max_category a b))
      × (category_order b ≤ category_order (max_category a b))
max_category-le a b = ground arith

abbrev IsAtMost : ActionCategory → Text → Type 0
IsAtMost w s = category_order (classify_single_command s) ≤ category_order w

worst_of_stages-le :
    (w : ActionCategory) (xs : List Text)
    → (category_order w ≤ category_order (worst_of_stages w xs))
      × All (IsAtMost (worst_of_stages w xs)) xs
unfolding worst_of_stages
worst_of_stages-le w [] = ((omega arith), tt)
worst_of_stages-le w (x ∷ xs) =
    let m = max_category w (classify_single_command x) in
    let (above, rest) = worst_of_stages-le m xs in
    let both = max_category-le w (classify_single_command x) in
    (omega (arith, above, both.0), ((omega (arith, above, both.1)), rest))

-- The value of a command that sends nothing into a shell.
abbrev with_redirect : Text → ActionCategory → ActionCategory
with_redirect trimmed w =
    if has_redirect trimmed && ltb (category_order w) (category_order write) then write else w

pub blank : (t : Text) → text_eq t [] ≡ true → t ≡ []
blank [] h = refl
blank (c ∷ cs) h = cc

classify_bash_command_blank :
    (t : Text)
    → t ≡ []
    → (has_pipe_to_shell t ≡ false)
      × (with_redirect t (worst_of_stages read (stages_of (split_chained_commands t))) ≡ read)
unfolding worst_of_stages has_redirect has_redirect_from has_pipe_to_shell
classify_bash_command_blank t h = (rw h, rw (h, split_chained_commands-nil))

classify_bash_command_cases :
    (command : Text)
    → ((has_pipe_to_shell (trim command) ≡ true) × (classify_bash_command command ≡ dangerous))
      ⊎ ((has_pipe_to_shell (trim command) ≡ false)
          × (classify_bash_command command
              ≡ with_redirect (trim command) (worst_of_stages read (stages command))))
unfolding classify_bash_command
classify_bash_command_cases command =
    let same = worst_of_segments-stages_of read (split_chained_commands (trim command)) in
    elim (Bool-cases (text_eq (trim command) [])) [
      | inl is_blank ↦
          let b = classify_bash_command_blank (trim command) (blank (trim command) is_blank) in
          inr (b.0, (rw (is_blank, b.1)))
      | inr full ↦ elim (Bool-cases (has_pipe_to_shell (trim command))) [
        | inl into_shell ↦ inl (into_shell, (rw (full, into_shell)))
        | inr safe ↦ inr (safe, (rw (full, safe, same)))
      ]
    ]

with_redirect_lem :
    (t : Text) (w : ActionCategory)
    → ((with_redirect t w ≡ read) ↔ ((has_redirect t ≡ false) × (w ≡ read)))
      × (category_order w ≤ category_order (with_redirect t w))
with_redirect_lem t w = ground arith

le-dangerous : (c : ActionCategory) → category_order c ≤ category_order dangerous
le-dangerous c = ground arith

read_of_order : (c : ActionCategory) → category_order c ≤ 0 → c ≡ read
read_of_order c h = ground arith

worst_of_stages-read :
    (xs : List Text)
    → All (λ s. classify_single_command s ≡ read) xs
    → worst_of_stages read xs ≡ read
unfolding worst_of_stages
worst_of_stages-read [] a = refl
worst_of_stages-read (x ∷ xs) a =
    ap (λ c. worst_of_stages (max_category read c) xs) a.0 ∙ worst_of_stages-read xs a.1

reads_below :
    (w : ActionCategory) (xs : List Text)
    → w ≡ read
    → All (IsAtMost w) xs
    → All (λ s. classify_single_command s ≡ read) xs
reads_below w xs h a =
    All-map
      (λ x le.
        read_of_order (classify_single_command x)
          (subst (λ c. category_order (classify_single_command x) ≤ category_order c) h le))
      xs a

raise_bound :
    (v w : ActionCategory) (xs : List Text)
    → category_order v ≤ category_order w
    → All (IsAtMost v) xs
    → All (IsAtMost w) xs
raise_bound v w xs le a = All-map (λ x h. omega (arith, le, h)) xs a

-- A command is read exactly if it sends nothing into a shell, has no redirect, and all its stages are
-- read; and no stage is worse than the command.
pub classify_bash_command_exact :
    (command : Text)
    → ((classify_bash_command command ≡ read) ↔ (
        (has_pipe_to_shell (trim command) ≡ false)
        × ((has_redirect (trim command) ≡ false)
            × All (λ s. classify_single_command s ≡ read) (stages command))))
      × All (IsAtMost (classify_bash_command command)) (stages command)
classify_bash_command_exact command =
    let worst = worst_of_stages read (stages command) in
    let bounds = (worst_of_stages-le read (stages command)).1 in
    elim (classify_bash_command_cases command) [
      | inl (into_shell, value) ↦ (
        ((λ is_read. cc), (λ all. cc)),
        raise_bound worst (classify_bash_command command) (stages command)
            (rw value (le-dangerous worst)) bounds,
      )
      | inr (safe, value) ↦
          let (exact, le) = with_redirect_lem (trim command) worst in
          (
            (
              (λ is_read.
                  let (no_redirect, w) = exact.0 (sym value ∙ is_read) in
                  (safe, (no_redirect, reads_below worst (stages command) w bounds))),
              (λ all. value ∙ exact.1 (all.1.0, worst_of_stages-read (stages command) all.1.1)),
            ),
            raise_bound worst (classify_bash_command command) (stages command) (rw value le) bounds,
          )
    ]
