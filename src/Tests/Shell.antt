-- ===== src/Tests/Shell.antt =====
-- The command interpreter, at a small index.
use btlib.Prelude.{some, ◌≡◌, refl, [], ◌∷◌, ◌++◌, pos, arith}
use btlib.Machine.{◌>>◌}
use btlib.Machine.Returns.{Returns}
use btlib.Index.Position.{zstart, btpos}
use btlib.Shell.{CmdBlk}
use btlib.Shell.Keys.{list}
use btlib.Shell.Keys.Listed.{Listed, btpos-list}
use btlib.Shell.Parse.{tokenise}
use btlib.Shell.Parse.Words.{line_of, tokenise-words}
use btlib.Examples.{leaf, index, index-IsCache, leaf-IsOrdered, stores_leaf, no_records}

abbrev with_count : CmdBlk
with_count = record { arg = b'c' ∷ []; qualifier = []; qual_int = pos 0 }

btpos-list_example :
    Returns
      (Listed index with_count leaf 3)
      ((btpos 9 zstart >> list no_records 9 9 with_count) index)
btpos-list_example =
    btpos-list no_records 9 9 5 3 with_count leaf index refl refl index-IsCache refl stores_leaf
      (record { count = refl; fits = omega arith; ordered = leaf-IsOrdered }) (λ i lt. ground arith)
      (λ i some_key le. refl) (omega arith) (omega arith)

tokenise-words_example :
    tokenise (line_of (b'd' ∷ (b'd' ∷ [])) (b'k' ∷ []) (b'v' ∷ (b'1' ∷ [])))
    ≡ some (record {
      cmd = b'd' ∷ (b'd' ∷ []);
      arg = b'k' ∷ [];
      qual = b'v' ∷ (b'1' ∷ []);
      all = (b'k' ∷ []) ++ (b' ' ∷ (b'v' ∷ (b'1' ∷ [])));
      nargs = 2;
    })
tokenise-words_example =
    tokenise-words (b'd' ∷ (b'd' ∷ [])) (b'k' ∷ []) (b'v' ∷ (b'1' ∷ [])) (refl, (refl, tt))
      (refl, tt) (refl, (refl, tt)) (omega arith)
