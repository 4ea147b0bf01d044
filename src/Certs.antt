-- ===== src/Certs.antt =====
-- src/certs.rs: the certificates that a connection to Ebbflow is trusted by. Their texts stand in the
-- children Intermediate, Elliptic and Root. The TLS library, with its store of certificates, is a
-- parameter.
pub mod Lines
pub mod Intermediate
pub mod Elliptic
pub mod Root
use Prim.Native.Char.{code}
use ebbflow.Prelude.{ℕ, String, List, [], ◌∷◌, Option, none, some}
use ebbflow.Prelude.Result.{Result, ok, err}
use ebbflow.Prelude.Bytes.{Bytes}
use ebbflow.Certs.Intermediate.{le_ia_x3, le_ia_x4, le_ia_r3, le_ia_r4}
use ebbflow.Certs.Elliptic.{le_ia_e1, le_ia_e2, le_root_x2}
use ebbflow.Certs.Root.{le_root}

-- rustls' `RootCertStore`. `add_pem_file` returns how many certificates it added and how many it
-- ignored, or that it could not read the text.
pub record Rustls : Type 1 where
  pub RootCertStore : Type 0
  pub empty : RootCertStore
  pub add_pem_file : Bytes → RootCertStore → Result (Unit {0}) (ℕ × ℕ) × RootCertStore
  pub len : RootCertStore → ℕ

-- `as_bytes` of an ASCII text.
abbrev pub as_bytes : String → Bytes
as_bytes String.[] = []
as_bytes (String.◌∷◌ c s) = code c ∷ as_bytes s

abbrev pub texts : List String
texts = le_ia_x3 ∷ le_ia_x4 ∷ le_ia_r3 ∷ le_ia_r4 ∷ le_ia_e1 ∷ le_ia_e2 ∷ le_root ∷ le_root_x2 ∷ []

module _ (lib : Rustls) where
  open lib use {RootCertStore, empty, add_pem_file}

  -- `unwrap` panics on an error, which is `none`, and drops the two counts.
  unfoldable pub unwrapped : Result (Unit {0}) (ℕ × ℕ) × RootCertStore → Option RootCertStore
  unwrapped (ok counts, roots) = some roots
  unwrapped (err u, roots) = none

  unfoldable pub add_all : List String → Option RootCertStore → Option RootCertStore
  unfolding unwrapped
  add_all [] roots = roots
  add_all (text ∷ rest) none = none
  add_all (text ∷ rest) (some roots) = add_all rest (unwrapped (add_pem_file (as_bytes text) roots))

  -- `ROOTS`
  unfoldable pub roots : Option RootCertStore
  unfolding add_all
  roots = add_all texts (some empty)
