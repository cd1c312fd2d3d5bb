-- ===== src/Storage/Persistence.antt =====
-- src/storage/persistence.rs: reading an index file under a size limit, and replacing it by a
-- complete new file. A directory is what the store sees of it; the operating system may refuse any
-- step, and which one it refuses is an argument.
use riddle.Prelude.{
  ℕ, ◌≡◌, ◌⊎◌, inl, inr, refl, Bool, true, false, Option, none, some, ltb, ◌==◌, if◌then◌else◌,
  Result, ok, err,
}
use riddle.Text.{Text, byte_len}

-- What stands at `index.tsv`: bytes that are no UTF-8 count only by their number.
pub data File : Type 0 where
  missing : File
  not_utf8 : ℕ → File
  text : Text → File

-- `temporary`: there is an `index.tsv.new`.
pub record Dir : Type 0 where
  pub index : File
  pub temporary : Bool

pub data ReadError : Type 0 where
  read_failed too_large invalid_utf8 : ReadError

-- A missing file is an empty store; any other failure is reported.
unfoldable pub read_optional_utf8 : Bool → File → ℕ → Result ReadError (Option Text)
read_optional_utf8 true file maximum = err read_failed
read_optional_utf8 false missing maximum = ok none
read_optional_utf8 false (not_utf8 size) maximum =
    if ltb maximum size then err too_large else err invalid_utf8
read_optional_utf8 false (text t) maximum =
    if ltb maximum (byte_len t) then err too_large else ok (some t)

-- The steps of `atomic_write` that can fail, in their order.
pub data WriteStage : Type 0 where
  open_parent remove_temporary create_temporary write_contents sync_file rename : WriteStage
  sync_directory : WriteStage

abbrev pub stage_number : WriteStage → ℕ
stage_number open_parent = 0
stage_number remove_temporary = 1
stage_number create_temporary = 2
stage_number write_contents = 3
stage_number sync_file = 4
stage_number rename = 5
stage_number sync_directory = 6

-- The step that fails, and whether the removal of the temporary file fails after it.
pub record WriteFault : Type 0 where
  pub stage : WriteStage
  pub cleanup_fails : Bool

abbrev Io : Type 0
Io = Dir → Result WriteStage (Unit {0}) × Dir

infixl 5 ◌>>◌
◌>>◌ : Io → Io → Io
◌>>◌ m k d = let (r, d') = m d in elim r [ ok _ ↦ k d' | err e ↦ (err e, d') ]

fails : Option WriteFault → WriteStage → Bool
fails none s = false
fails (some f) s = stage_number f.stage == stage_number s

attempt : Option WriteFault → WriteStage → (Dir → Dir) → Io
unfolding fails
attempt fault s effect d = if fails fault s then (err s, d) else (ok tt, effect d)

-- The closure of `atomic_write`: write beside the destination, make it durable, publish it.
publish : Option WriteFault → Text → Io
unfolding attempt ◌>>◌
publish fault contents = do
  attempt fault create_temporary (λ d. record d { temporary = true })
  attempt fault write_contents (λ d. d)
  attempt fault sync_file (λ d. d)
  attempt fault rename (λ d. record d { index = text contents; temporary = false })
  attempt fault sync_directory (λ d. d)

abbrev cleanup : Option WriteFault → Dir → Dir
cleanup none d = d
cleanup (some f) d = if f.cleanup_fails then d else record d { temporary = false }

-- `if result.is_err() { let _ = remove_file(&temporary); } result`
clean_up_after : Option WriteFault → Io → Io
clean_up_after fault m d =
    let (r, d') = m d in elim r [ ok u ↦ (ok u, d') | err e ↦ (err e, cleanup fault d') ]

unfoldable pub atomic_write : Option WriteFault → Text → Io
unfolding attempt ◌>>◌ publish clean_up_after
atomic_write fault contents = do
  attempt fault open_parent (λ d. d)
  attempt fault remove_temporary (λ d. record d { temporary = false })
  clean_up_after fault (publish fault contents)

-- Without a fault the new contents are published and nothing is left beside them.
pub atomic_write-none :
    (contents : Text) (d : Dir)
    → atomic_write none contents d ≡ (ok tt, record { index = text contents; temporary = false })
unfolding atomic_write
atomic_write-none contents d = refl

abbrev Published : WriteFault → Text → Dir → Type 0
Published f contents d =
    ((atomic_write (some f) contents d).0 ≡ err f.stage)
    × ((atomic_write (some f) contents d).1.index
        ≡ (if stage_number f.stage == 6 then text contents else d.index))

Published-at :
    (stage : WriteStage) (cleanup_fails : Bool) (contents : Text) (d : Dir)
    → Published (record { stage = stage; cleanup_fails = cleanup_fails }) contents d
unfolding atomic_write
Published-at open_parent b contents d = (refl, refl)
Published-at remove_temporary b contents d = (refl, refl)
Published-at create_temporary true contents d = (refl, refl)
Published-at create_temporary false contents d = (refl, refl)
Published-at write_contents true contents d = (refl, refl)
Published-at write_contents false contents d = (refl, refl)
Published-at sync_file true contents d = (refl, refl)
Published-at sync_file false contents d = (refl, refl)
Published-at rename true contents d = (refl, refl)
Published-at rename false contents d = (refl, refl)
Published-at sync_directory true contents d = (refl, refl)
Published-at sync_directory false contents d = (refl, refl)

-- Whatever step fails, the index is the old file or the complete new one, and it is the new one
-- exactly when only the directory's sync failed.
pub atomic_write-some :
    (f : WriteFault) (contents : Text) (d : Dir)
    → ((atomic_write (some f) contents d).0 ≡ err f.stage)
      × ((atomic_write (some f) contents d).1.index
          ≡ (if stage_number f.stage == 6 then text contents else d.index))
unfolding atomic_write
atomic_write-some f contents d = Published-at f.stage f.cleanup_fails contents d

old_or_new : (b : Bool) (x y z : File) → x ≡ (if b then y else z) → (x ≡ z) ⊎ (x ≡ y)
old_or_new true x y z h = inr h
old_or_new false x y z h = inl h

-- How a replacement ends, for the proofs about its callers.
pub atomic_write-cases :
    (fault : Option WriteFault) (contents : Text) (d : Dir)
    → ((atomic_write fault contents d).0 ≡ ok tt)
        × ((atomic_write fault contents d).1.index ≡ text contents)
      ⊎ (s : WriteStage) × ((atomic_write fault contents d).0 ≡ err s)
        × (((atomic_write fault contents d).1.index ≡ d.index)
            ⊎ ((atomic_write fault contents d).1.index ≡ text contents))
atomic_write-cases none contents d = inl (unfold atomic_write in refl, unfold atomic_write in refl)
atomic_write-cases (some f) contents d =
    let (failed, left) = atomic_write-some f contents d in
    inr (f.stage, failed, old_or_new (stage_number f.stage == 6) _ _ _ left)
