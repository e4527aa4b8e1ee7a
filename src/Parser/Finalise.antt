-- ===== src/Parser/Finalise.antt =====
-- libs/util/include/diffmonger/util/parser/Parser.hpp, `Parser::finalise`: what the parameters are
-- when it returns.
use diffmonger.Base.{
  Option-cases, subst, ◌≡◌, ◌⊎◌, inl, inr, refl, sym, ap, ◌∙◌, Bool-cases, true, false, Option,
  none, some, List, [], ◌∷◌,
}
use diffmonger.Base.Text.{bytes_eq, bytes_eq_refl, eq_of_bytes_eq}
use diffmonger.Error.{Result-cases, ok_injective, Result, ok, err, >>=-eq-ok}
use diffmonger.Parser.TextMap.{Text, Map, find, without}
use diffmonger.Parser.Parameters.{
  Kind, required, defaulted, optional, Parameter, stored_or, set, get,
}
use diffmonger.Parser.Arguments.{KeyValues}
use diffmonger.Parser.Parse.{given_or_kept, finalise_parameter, finalise_parameters}
use diffmonger.Parser.KeyValues.{find-without-other}

-- `p'` is `p` with its value from the command line: what the chain makes of the values that stand
-- there, or what it had; and it has a value if it needs one.
pub record IsFinal {V : Type 0} (m : KeyValues) (p p' : Parameter V) : Type 0 where
  pub same_name : p'.name ≡ p.name
  pub same_kind : p'.kind ≡ p.kind
  pub given :
      (values : List Text)
      → find p.name m ≡ some values
      → (v : V) × (p.chain values ≡ ok v) × (p'.storage ≡ some v)
  pub kept : find p.name m ≡ none → p'.storage ≡ p.storage
  pub present : p'.kind ≡ required → (v : V) × (p'.storage ≡ some v)

present_case :
    {V : Type 0}
    → (kind : Kind) (storage o : Option V) → stored_or kind storage ≡ ok o
    → kind ≡ required
    → (v : V) × (storage ≡ some v)
present_case required none o h e = cc
present_case (defaulted values) none o h e = cc
present_case optional none o h e = cc
present_case kind (some v) o h e = (v, refl)

bytes_eq-swap : (xs ys : Text) → bytes_eq xs ys ≡ false → bytes_eq ys xs ≡ false
bytes_eq-swap xs ys h = elim (Bool-cases (bytes_eq ys xs)) [
  | inl same ↦
      let turned : bytes_eq xs ys ≡ true =
        ap (bytes_eq xs) (eq_of_bytes_eq ys xs same) ∙ bytes_eq_refl xs in
      cc
  | inr apart ↦ apart
]

module _ {V : Type 0} (m : KeyValues) where
  set-IsFinal :
      (values : List Text) (p q : Parameter V)
      → find p.name m ≡ some values
      → set values p ≡ ok q
      → IsFinal m p q
  unfolding set
  set-IsFinal values p q there h =
      let (v, made, stored) = >>=-eq-ok (p.chain values) _ h in
      let same : record p { storage = some v } ≡ q = ok_injective stored in
      let own : q.storage ≡ some v = ap (λ (x : Parameter V). x.storage) (sym same) in
      record {
        same_name = ap (λ (x : Parameter V). x.name) (sym same);
        same_kind = ap (λ (x : Parameter V). x.kind) (sym same);
        given = λ others found. let this : others ≡ values = cc in (v, ap p.chain this ∙ made, own);
        kept = λ missing. cc;
        present = λ is. (v, own);
      }

  kept-IsFinal :
      (p q : Parameter V) (o : Option V)
      → find p.name m ≡ none
      → p ≡ q
      → stored_or q.kind q.storage ≡ ok o
      → IsFinal m p q
  kept-IsFinal p q o missing same checked = record {
    same_name = ap (λ (x : Parameter V). x.name) (sym same);
    same_kind = ap (λ (x : Parameter V). x.kind) (sym same);
    given = λ values found. cc;
    kept = λ h. ap (λ (x : Parameter V). x.storage) (sym same);
    present = λ is. present_case q.kind q.storage o checked is;
  }

  finalise_parameter-IsFinal :
      (p p' : Parameter V) → finalise_parameter m p ≡ ok p' → IsFinal m p p'
  unfolding finalise_parameter get
  finalise_parameter-IsFinal p p' h =
      let (q, first, rest) = >>=-eq-ok (given_or_kept (find p.name m) p) _ h in
      let (o, checked, last) = >>=-eq-ok (stored_or q.kind q.storage) _ rest in
      let chosen : (c : Option (List Text)) → find p.name m ≡ c → given_or_kept c p ≡ ok q =
        λ c e. ap (λ d. given_or_kept d p) (sym e) ∙ first in
      subst (IsFinal m p) (ok_injective last) (elim (Option-cases (find p.name m)) [
        | inr (values, there) ↦ set-IsFinal values p q there (chosen (some values) there)
        | inl missing ↦ kept-IsFinal p q o missing (ok_injective (chosen none missing)) checked
      ])

  -- Each parameter, and what became of it.
  abbrev pub AllFinal : Map (Parameter V) → Map (Parameter V) → Type 0
  AllFinal [] [] = Unit {0}
  AllFinal [] (pair' ∷ ps') = ⊥
  AllFinal (pair ∷ ps) [] = ⊥
  AllFinal ((k, p) ∷ ps) ((k', p') ∷ ps') = (k' ≡ k) × IsFinal m p p' × AllFinal ps ps'

module _ {V : Type 0} where
  -- No parameter has the name.
  abbrev pub NotNamed : Text → Map (Parameter V) → Type 0
  NotNamed name [] = Unit {0}
  NotNamed name ((k, p) ∷ ps) = (bytes_eq p.name name ≡ false) × NotNamed name ps

  abbrev pub Distinct : Map (Parameter V) → Type 0
  Distinct [] = Unit {0}
  Distinct ((k, p) ∷ ps) = NotNamed p.name ps × Distinct ps

  -- Some parameter has the name.
  abbrev pub Named : Text → Map (Parameter V) → Type 0
  Named name [] = ⊥
  Named name ((k, p) ∷ ps) = (p.name ≡ name) ⊎ Named name ps

  without-IsFinal :
      (name : Text) (m : KeyValues) (p p' : Parameter V)
      → bytes_eq p.name name ≡ false
      → IsFinal (without name m) p p'
      → IsFinal m p p'
  without-IsFinal name m p p' apart f =
      let same = find-without-other name p.name m apart in
      record {
        same_name = f.same_name;
        same_kind = f.same_kind;
        given = λ values h. f.given values (same ∙ h);
        kept = λ h. f.kept (same ∙ h);
        present = f.present;
      }

  without-AllFinal :
      (name : Text) (m : KeyValues) (ps ps' : Map (Parameter V))
      → NotNamed name ps
      → AllFinal (without name m) ps ps'
      → AllFinal m ps ps'
  without-AllFinal name m [] [] apart all = tt
  without-AllFinal name m [] (pair' ∷ ps') apart all = absurd all
  without-AllFinal name m (pair ∷ ps) [] apart all = absurd all
  without-AllFinal name m ((k, p) ∷ ps) ((k', p') ∷ ps') (here, apart) (same, f, all) =
      (same, without-IsFinal name m p p' here f, without-AllFinal name m ps ps' apart all)

  -- If the parameters have different names and the loop of `finalise` returns, then each parameter
  -- has the value that its chain makes of what stands on the command line, or the one it had if
  -- nothing stands there, and has one if it is required; and what stands there for a key that is no
  -- parameter's is left over, for `unrecognisedParameters`.
  pub finalise_parameters-AllFinal :
      (m rest : KeyValues) (ps : Map (Parameter V))
      → Distinct ps
      → (finalise_parameters m ps).0 ≡ ok rest
      → AllFinal m ps (finalise_parameters m ps).1
        × ((key : Text) (values : List Text)
            → find key m ≡ some values
            → Named key ps ⊎ (find key rest ≡ some values))
  unfolding finalise_parameters
  finalise_parameters-AllFinal m rest [] distinct h =
      (tt, λ key values found. inr (ap (find key) (sym (ok_injective h)) ∙ found))
  finalise_parameters-AllFinal m rest ((k, p) ∷ ps) (apart, distinct) h =
      elim (Result-cases (finalise_parameter m p)) [
        | inl (e, failed) ↦
            let thrown : (finalise_parameters m ((k, p) ∷ ps)).0 ≡ err e =
              rw (finalise_parameters, failed) refl in
            cc
        | inr (p', returned) ↦
            let left = without p.name m in
            let step : finalise_parameters m ((k, p) ∷ ps)
                ≡ ((finalise_parameters left ps).0, (k, p') ∷ (finalise_parameters left ps).1) =
              rw (finalise_parameters, returned) refl in
            let (all, found_or_left) =
              finalise_parameters-AllFinal left rest ps distinct
                (ap (λ (r : Result KeyValues × Map (Parameter V)). r.0) (sym step) ∙ h) in
            (
              subst (λ (r : Result KeyValues × Map (Parameter V)). AllFinal m ((k, p) ∷ ps) r.1)
                  (sym step)
                  (
                    refl,
                    finalise_parameter-IsFinal m p p' returned,
                    without-AllFinal p.name m ps (finalise_parameters left ps).1 apart all,
                  ),
              λ key values found. elim (Bool-cases (bytes_eq p.name key)) [
                | inl same ↦ inl (inl (eq_of_bytes_eq p.name key same))
                | inr differs ↦
                    elim (found_or_left key values (
                      find-without-other p.name key m (bytes_eq-swap p.name key differs) ∙ found)) [
                        | inl named ↦ inl (inr named)
                        | inr over ↦ inr over
                      ]
              ],
            )
      ]
