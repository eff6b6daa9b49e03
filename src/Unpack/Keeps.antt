-- ===== src/Unpack/Keeps.antt =====
-- What a run leaves true of the file system, step by step.
use async_tar_rs.Base.{Bool, true, false, if◌then◌else◌}
use async_tar_rs.Base.Result.{Error, Action}
use async_tar_rs.Poll.{Outcome, M, after_keeps, ◌>>=◌, ◌>>◌, read, wrap, or_else, otherwise_keeps}
use async_tar_rs.Entry.Read.{Cursor}
use async_tar_rs.Unpack.System.{World, on_cursor}

-- A computation keeps what is true of the file system.
pub record Keeps {R F A : Type 0} (P : F → Type 0) (m : M (World R F) A) : Type 0 where
  pub keeps : (w : World R F) → P w.fs → P (m w).0.fs

module _ {R F : Type 0} (P : F → Type 0) where
  pub keeps_bind :
      {A B : Type 0} {m : M (World R F) A} {f : A → M (World R F) B}
      → Keeps P m
      → ((a : A) → Keeps P (f a))
      → Keeps P (m >>= f)
  keeps_bind {m = m} {f = f} hm hf = record {
    keeps = λ w p. after_keeps (λ w'. P w'.fs) f (m w) (hm.keeps w p) (λ a s q. (hf a).keeps s q);
  }

  pub keeps_then :
      {A B : Type 0} {m : M (World R F) A} {k : M (World R F) B}
      → Keeps P m
      → Keeps P k
      → Keeps P (m >> k)
  keeps_then {m = m} {k = k} hm hk = record {
    keeps =
        λ w p. after_keeps (λ w'. P w'.fs) (λ _. k) (m w) (hm.keeps w p) (λ a s q. hk.keeps s q);
  }

  pub keeps_or_else :
      {A : Type 0} {m : M (World R F) A} {f : Error → M (World R F) A}
      → Keeps P m
      → ((e : Error) → Keeps P (f e))
      → Keeps P (or_else m f)
  keeps_or_else {m = m} {f = f} hm hf = record {
    keeps =
        λ w p. otherwise_keeps (λ w'. P w'.fs) f (m w) (hm.keeps w p) (λ e s q. (hf e).keeps s q);
  }

  pub keeps_wrap :
      {A : Type 0} {m : M (World R F) A} (action : Action) → Keeps P m → Keeps P (wrap action m)
  keeps_wrap action hm = record { keeps = λ w p. hm.keeps w p }

  pub keeps_same : {A : Type 0} (o : Outcome A) → Keeps {R = R} P (λ w. (w, o))
  keeps_same o = record { keeps = λ w p. p }

  pub keeps_read : {A : Type 0} (f : World R F → A) → Keeps P (read f)
  keeps_read f = record { keeps = λ w p. p }

  pub keeps_if :
      {A : Type 0} (b : Bool) {m k : M (World R F) A}
      → Keeps P m
      → Keeps P k
      → Keeps P (if b then m else k)
  keeps_if true hm hk = hm
  keeps_if false hm hk = hk

  pub keeps_cursor : {A : Type 0} (m : M (Cursor R) A) → Keeps {R = R} P (on_cursor m)
  keeps_cursor m = record { keeps = λ w p. p }
