-- ===== src/Error.antt =====
-- src-lib/bterr.c: the recorded error. `bterr_clear` is the call with an empty name. The system's
-- errno and the message texts are left out.
pub mod Laws
use Prim.Native.String
use Prim.Native.String.{String}
use btlib.Prelude.{ℕ, zero, suc, ◌-◌, ◌==◌, if◌then◌else◌, take}
use btlib.Consts.{zrnamesz}
use btlib.Machine.{Arg, no_arg, number, text, Err, State, M, pure, ◌>>=◌, get, modify}

-- `strncpy(qname, name, n)`
abbrev pub cut : ℕ → String → String
cut zero name = ""
cut (suc n) String.[] = ""
cut (suc n) (String.◌∷◌ c name) = String.◌∷◌ c (cut n name)

-- `if (arg != NULL) strncpy(qarg, arg, ZRNAMESZ-1)`; the digits of a 32-bit number, at most eleven
-- characters, fit.
abbrev pub keep_arg : Arg → Arg → Arg
keep_arg no_arg old = old
keep_arg (number n) old = number n
keep_arg (text t) old = text (take (zrnamesz - 1) t)

unfoldable pub bterr_clear : M (Unit {0})
bterr_clear = modify λ s. record s { err = record { qerror = 0; qname = ""; qarg = no_arg } }

-- An empty name clears the record; else only the first error is recorded.
unfoldable pub bterr : String → ℕ → Arg → M (Unit {0})
unfolding bterr_clear
bterr String.[] code arg = bterr_clear
bterr (String.◌∷◌ c name) code arg = modify λ s. record s {
  err =
      if s.err.qerror == 0
      then record {
        qerror = code;
        qname = cut (zrnamesz - 1) (String.◌∷◌ c name);
        qarg = keep_arg arg s.err.qarg;
      }
      else s.err;
}

unfoldable pub btgerr : M ℕ
btgerr = do s ← get; pure s.err.qerror
