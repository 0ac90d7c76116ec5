-- ===== src/Error/Laws.antt =====
-- src-lib/bterr.c: which error stays recorded.
use Prim.Native.String.{String}
use btlib.Prelude.{ℕ, ◌-◌, ◌≡◌, ◌≢◌, refl, ap, ◌∙◌, List, [], ◌∷◌, arith}
use btlib.Consts.{zrnamesz}
use btlib.Machine.{Arg, no_arg, Err, State, M, ok, and_then, skip, ◌>>◌}
use btlib.Error.{bterr, bterr_clear, btgerr, cut, keep_arg}

-- a call of `bterr`
pub record Report : Type 0 where
  pub name : String
  pub code : ℕ
  pub arg : Arg

-- the calls of a list, one after another
unfoldable pub bterr_each : List Report → M (Unit {0})
bterr_each [] = skip
bterr_each (r ∷ rs) = bterr r.name r.code r.arg >> bterr_each rs

-- none of them has the empty name, which clears the record
abbrev pub AllNamed : List Report → Type 0
AllNamed [] = Unit
AllNamed (r ∷ rs) = (r.name ≢ "") × AllNamed rs

-- what a first error leaves
abbrev pub first_error : Report → Err
first_error r = record {
  qerror = r.code;
  qname = cut (zrnamesz - 1) r.name;
  qarg = keep_arg r.arg no_arg;
}

-- an error is recorded after a clear,
recorded :
    (name : String) (code : ℕ) (arg : Arg) (s : State)
    → name ≢ ""
    → (bterr_clear >> bterr name code arg) s
      ≡ ok tt (record s { err = first_error (record { name = name; code = code; arg = arg }) })
unfolding bterr bterr_clear
recorded String.[] code arg s named = absurd (named refl)
recorded (String.◌∷◌ c name) code arg s named = refl

-- and one is not while another is
ignored :
    (name : String) (code : ℕ) (arg : Arg) (s : State)
    → name ≢ ""
    → s.err.qerror ≢ 0
    → bterr name code arg s ≡ ok tt s
unfolding bterr
ignored String.[] code arg s named err = absurd (named refl)
ignored (String.◌∷◌ c name) code arg s named err = ground (arith, err)

all_ignored :
    (rs : List Report) (s : State) → AllNamed rs → s.err.qerror ≢ 0 → bterr_each rs s ≡ ok tt s
unfolding bterr_each
all_ignored [] s named err = refl
all_ignored (r ∷ rs) s named err =
    ap (λ x. and_then x λ _. bterr_each rs) (ignored r.name r.code r.arg s named.0 err)
    ∙ all_ignored rs s named.1 err

returned : (t : State) → btgerr t ≡ ok t.err.qerror t
unfolding btgerr
returned t = refl

-- After a call that clears the errors, an error is reported whose code is not 0, and any number of
-- others after it, none of them with the empty name. Then `btgerr` returns the code of the first, whose
-- name and argument are recorded, cut to ZRNAMESZ-1 characters, and nothing else of the state has
-- changed.
pub bterr-first :
    (r : Report) (rs : List Report) (s : State)
    → r.code ≢ 0
    → AllNamed (r ∷ rs)
    → (bterr "" 0 no_arg >> bterr_each (r ∷ rs) >> btgerr) s
      ≡ ok r.code (record s { err = first_error r })
unfolding bterr_each bterr
bterr-first r rs s err named =
    let t : State = record s { err = first_error r } in
    ap (λ x. and_then (and_then x λ _. bterr_each rs) λ _. btgerr)
      (recorded r.name r.code r.arg s named.0)
    ∙ ap (λ x. and_then x λ _. btgerr) (all_ignored rs t named.1 err)
    ∙ returned t
