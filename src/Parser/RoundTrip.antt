-- ===== src/Parser/RoundTrip.antt =====
-- libs/util/include/diffmonger/util/parser/Parser.hpp, `Parser::parse`: its loop ends, and does what
-- the arguments say.
use diffmonger.Base.{
  length-append, length, ℕ, zero, suc, ◌≤◌, ◌≡◌, inl, inr, refl, ◌∙◌, ◌==◌, Bool-cases, true, false,
  Option, none, some, List, [], ◌∷◌, map, arith,
}
use diffmonger.Error.{Result, ok, err}
use diffmonger.Zfs.Commands.{Run}
use diffmonger.ZfsDriver.{resume}
use diffmonger.Parser.TextMap.{Text}
use diffmonger.Parser.Parameters.{Graph}
use diffmonger.Parser.Arguments.{
  KeyValues, separator, append_token, is_command, key_and_maybe_token, value_after, assigned_key,
  ends_with, take_values, take_parameter, take_assigned, append_value, assign_values,
}
use diffmonger.Parser.Parse.{Commands, enter, finish, parse_loop, parse}
use diffmonger.Parser.Render.{
  Item, assign_value, sets, assigns, appends, enters, render_all, AllItems, render_all-Stops,
  name-read, empty-read, sets-read, assigns-read, appends-read,
}

-- Where the next steps do the same, so does the whole.
resume-same :
    {W A B : Type 0}
    → (x : Result A × W) (f g : A → Run W B) → ((a : A) (w : W) → f a w ≡ g a w)
    → resume x f ≡ resume x g
resume-same (ok a, w) f g same = same a w
resume-same (err e, w) f g same = refl

length-take_values : (args : List Text) → length (take_values args).1 ≤ length args
length-take_values [] = omega arith
length-take_values ([] ∷ args) = omega arith
length-take_values ((c ∷ cs) ∷ args) = elim (Bool-cases (c == separator)) [
  | inl more ↦ rw more (omega (arith, length-take_values args))
  | inr done ↦ rw done (omega arith)
]

length-take_assigned :
    (key : Text) (value : Option Text) (args : List Text) (m : KeyValues)
    → length (take_assigned key value args m).1 ≤ length args
length-take_assigned key none args m = omega arith
length-take_assigned key (some value) args m = length-take_values args

length-take_parameter :
    (cur : Text) (args : List Text) (m : KeyValues)
    → length (take_parameter cur args m).1 ≤ length args
unfolding take_parameter
length-take_parameter cur args m = elim (Bool-cases (ends_with append_token key)) [
  | inl plus ↦ rw (take_parameter, plus) (omega arith)
  | inr no_plus ↦
      rw (take_parameter, no_plus)
        (length-take_assigned (assigned_key key) (value_after cur) args m)
]
  where
    key : Text
    key = key_and_maybe_token cur

length-render_all : (items : List Item) → length items ≤ length (render_all items)
length-render_all [] = omega arith
length-render_all (sets key [] ∷ items) = omega (arith, length-render_all items)
length-render_all (sets key (value ∷ values) ∷ items) =
    omega
      (arith, length-render_all items, length-append (map assign_value values) (render_all items))
length-render_all (assigns key value values ∷ items) =
    omega
      (arith, length-render_all items, length-append (map assign_value values) (render_all items))
length-render_all (appends key value ∷ items) = omega (arith, length-render_all items)
length-render_all (enters name ∷ items) = omega (arith, length-render_all items)

module _ {V W : Type 0} (commands : Commands V W) where
  parse_loop-parameter :
      (fuel command : ℕ) (m m' : KeyValues) (cur : Text) (args rest : List Text) (s : Graph V × W)
      → is_command cur ≡ false
      → take_parameter cur args m ≡ (m', rest)
      → parse_loop commands (suc fuel) command m (cur ∷ args) s
        ≡ parse_loop commands fuel command m' rest s
  unfolding parse_loop
  parse_loop-parameter fuel command m m' cur args rest s not_command taken =
      rw (parse_loop, not_command, taken) refl

  parse_loop-command :
      (fuel command : ℕ) (m : KeyValues) (cur : Text) (args : List Text) (s : Graph V × W)
      → is_command cur ≡ true
      → parse_loop commands (suc fuel) command m (cur ∷ args) s
        ≡ resume
            (enter commands command m (key_and_maybe_token cur) s)
            (λ next. parse_loop commands fuel next [] args)
  unfolding parse_loop
  parse_loop-command fuel command m cur args s is = rw (parse_loop, is) refl

  parse_loop-same :
      (fuel fuel' command : ℕ) (m : KeyValues) (args : List Text) (s : Graph V × W)
      → length args ≤ fuel
      → length args ≤ fuel'
      → parse_loop commands (suc fuel) command m args s
        ≡ parse_loop commands (suc fuel') command m args s
  unfolding parse_loop
  parse_loop-same fuel fuel' command m [] s h h' = refl
  parse_loop-same zero fuel' command m (cur ∷ args) s h h' = absurd (omega (arith, h))
  parse_loop-same (suc fuel) zero command m (cur ∷ args) s h h' = absurd (omega (arith, h'))
  parse_loop-same (suc fuel) (suc fuel') command m (cur ∷ args) s h h' =
      elim (Bool-cases (is_command cur)) [
        | inl is ↦
            rw (parse_loop, is)
              (resume-same (enter commands command m (key_and_maybe_token cur) s)
                (λ next. parse_loop commands (suc fuel) next [] args)
                (λ next. parse_loop commands (suc fuel') next [] args)
                (λ next s'.
                  parse_loop-same fuel fuel' next [] args s' (omega (arith, h))
                    (omega (arith, h'))))
        | inr not_one ↦
            let (m', rest) = take_parameter cur args m in
            let fewer : length rest ≤ length args = length-take_parameter cur args m in
            rw (parse_loop, not_one)
              (parse_loop-same fuel fuel' command m' rest s (omega (arith, h, fewer))
                (omega (arith, h', fewer)))
      ]

  -- With fuel for more rounds than there are arguments the loop of `parse` does what it does with
  -- fuel for just one round more than there are arguments.
  pub parse_loop-enough :
      (fuel command : ℕ) (m : KeyValues) (args : List Text) (s : Graph V × W)
      → length args ≤ fuel
      → parse_loop commands (suc fuel) command m args s
        ≡ parse_loop commands (suc (length args)) command m args s
  parse_loop-enough fuel command m args s h =
      parse_loop-same fuel (length args) command m args s h (omega arith)

  -- What the items mean, one by one: the keys are collected until a subcommand is entered, or the
  -- arguments end.
  unfoldable pub run_items : ℕ → KeyValues → List Item → Run (Graph V × W) (Unit {0})
  run_items command m [] s = finish commands command m s
  run_items command m (sets key values ∷ items) s =
      run_items command (assign_values key values m) items s
  run_items command m (assigns key value values ∷ items) s =
      run_items command (assign_values key (value ∷ values) m) items s
  run_items command m (appends key value ∷ items) s =
      run_items command (append_value key value m) items s
  run_items command m (enters name ∷ items) s =
      resume (enter commands command m name s) (λ next. run_items next [] items)

  loop-run_items :
      (fuel command : ℕ) (m : KeyValues) (items : List Item) (s : Graph V × W)
      → AllItems items
      → length items ≤ fuel
      → parse_loop commands (suc fuel) command m (render_all items) s ≡ run_items command m items s
  unfolding parse_loop run_items
  loop-run_items fuel command m [] s all h = refl
  loop-run_items zero command m (item ∷ items) s all h = absurd (omega (arith, h))
  loop-run_items (suc fuel) command m (sets key [] ∷ items) s (k, all) h =
      let (not_command, taken) = empty-read key (render_all items) m k in
      parse_loop-parameter (suc fuel) command m _ _ _ _ s not_command taken
      ∙ loop-run_items fuel command (assign_values key [] m) items s all (omega (arith, h))
  loop-run_items (suc fuel) command m (sets key (value ∷ values) ∷ items) s (k, all) h =
      let (not_command, taken) =
        sets-read key value values (render_all items) m k (render_all-Stops items all) in
      parse_loop-parameter (suc fuel) command m _ _ _ _ s not_command taken
      ∙ loop-run_items fuel command (assign_values key (value ∷ values) m) items s all
          (omega (arith, h))
  loop-run_items (suc fuel) command m (assigns key value values ∷ items) s (k, all) h =
      let (not_command, taken) =
        assigns-read key value values (render_all items) m k (render_all-Stops items all) in
      parse_loop-parameter (suc fuel) command m _ _ _ _ s not_command taken
      ∙ loop-run_items fuel command (assign_values key (value ∷ values) m) items s all
          (omega (arith, h))
  loop-run_items (suc fuel) command m (appends key value ∷ items) s (k, all) h =
      let (not_command, taken) = appends-read key value (render_all items) m k in
      parse_loop-parameter (suc fuel) command m _ _ _ _ s not_command taken
      ∙ loop-run_items fuel command (append_value key value m) items s all (omega (arith, h))
  loop-run_items (suc fuel) command m (enters name ∷ items) s (n, all) h =
      let (is, same) = name-read name n in
      parse_loop-command (suc fuel) command m name (render_all items) s is
      ∙ rw same (
          resume-same (enter commands command m name s)
            (λ next. parse_loop commands (suc fuel) next [] (render_all items))
            (λ next. run_items next [] items)
            (λ next s'. loop-run_items fuel next [] items s' all (omega (arith, h))))

  -- Arguments that are written as the grammar says, with keys and names that have no "=", keys that
  -- are not empty and end with neither ":" nor "+", names that do not end with ":" and any values,
  -- make `parse` enter the command and then do what they mean, item by item.
  pub parse-render :
      (command : ℕ) (items : List Item) (s : Graph V × W)
      → AllItems items
      → parse commands command (render_all items) s
        ≡ resume (commands.on_enter command s) (λ u. run_items command [] items)
  unfolding parse
  parse-render command items s all =
      resume-same (commands.on_enter command s)
        (λ u. parse_loop commands (suc (length (render_all items))) command [] (render_all items))
        (λ u. run_items command [] items)
        (λ u s'.
          loop-run_items (length (render_all items)) command [] items s' all
            (length-render_all items))
