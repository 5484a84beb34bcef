-- ===== src/Migrate/Backup.antt =====
-- What the copies of pkg/migrate/migrate.go leave of the files that were there.
use picoclawnim.Base.{
  ◌+◌, ◌≡◌, ◌≢◌, ◌⊎◌, inl, inr, refl, sym, ap, ◌∙◌, arith, Option, none, some, [], ◌++◌, Str, str,
  str_eq_refl, str_eq_ne, length, length-append, Map, lookup, insert, lookup-insert,
}
use picoclawnim.Migrate.Plan.{action_backup}
use picoclawnim.Migrate.Execute.{
  Result, Faults, Codec, opened, open_file, text_in, fill, copy_opened, copy_file, after_copy,
  place, after_backup, execute_action,
}

fill-others :
    (w : Option (Str × Str)) (src dst p : Str) (fs : Map Str)
    → dst ≢ p
    → lookup p (fill w src dst fs).1 ≡ lookup p fs
unfolding fill
fill-others none src dst p fs h =
    lookup-insert dst p (text_in (lookup src fs)) fs ∙ rw (str_eq_ne dst p h) refl
fill-others (some (e, left)) src dst p fs h =
    lookup-insert dst p left fs ∙ rw (str_eq_ne dst p h) refl

copy_opened-others :
    (create : Option Str) (w : Option (Str × Str)) (src dst p : Str) (fs : Map Str) (o : Str ⊎ Str)
    → dst ≢ p
    → lookup p (copy_opened create w src dst fs o).1 ≡ lookup p fs
unfolding copy_opened
copy_opened-others create w src dst p fs (inl e) h = refl
copy_opened-others (some e) w src dst p fs (inr s) h = refl
copy_opened-others none w src dst p fs (inr s) h =
    fill-others w src dst p (insert dst [] fs) h
    ∙ lookup-insert dst p [] fs
    ∙ rw (str_eq_ne dst p h) refl

copy_file-others :
    (f : Faults) (src dst p : Str) (fs : Map Str)
    → dst ≢ p
    → lookup p (copy_file f src dst fs).1 ≡ lookup p fs
unfolding copy_file
copy_file-others f src dst p fs h =
    copy_opened-others (f.create_fault dst) (f.write_fault dst) src dst p fs (open_file f src fs) h

opened-some : (e f : Option Str) (s : Str) → opened e f ≡ inr s → f ≡ some s
unfolding opened
opened-some none none s h = ground arith
opened-some none (some t) s h = ground arith
opened-some (some e) f s h = ground arith

fill-copied :
    (w : Option (Str × Str)) (src dst s : Str) (fs : Map Str)
    → lookup src fs ≡ some s
    → (fill w src dst fs).0 ≡ none
    → lookup dst (fill w src dst fs).1 ≡ some s
unfolding fill text_in
fill-copied none src dst s fs e h = rw e (lookup-insert dst dst s fs ∙ rw (str_eq_refl dst) refl)
fill-copied (some (x, left)) src dst s fs e h = ground arith

copy_opened-copied :
    (create : Option Str) (w : Option (Str × Str)) (src dst : Str) (fs : Map Str) (o : Str ⊎ Str)
    → src ≢ dst
    → ((s : Str) → o ≡ inr s → lookup src fs ≡ some s)
    → (copy_opened create w src dst fs o).0 ≡ none
    → lookup dst (copy_opened create w src dst fs o).1 ≡ lookup src fs
unfolding copy_opened
copy_opened-copied create w src dst fs (inl e) ne k h = ground arith
copy_opened-copied (some e) w src dst fs (inr s) ne k h = ground arith
copy_opened-copied none w src dst fs (inr s) ne k h =
    fill-copied w src dst s (insert dst [] fs)
      (lookup-insert dst src [] fs ∙ rw (str_eq_ne dst src (λ e. ne (sym e))) (k s refl)) h
    ∙ sym (k s refl)

-- A copy without an error, to another file, is a copy.
copy_file-copied :
    (f : Faults) (src dst : Str) (fs : Map Str)
    → src ≢ dst
    → (copy_file f src dst fs).0 ≡ none
    → lookup dst (copy_file f src dst fs).1 ≡ lookup src fs
unfolding copy_file open_file
copy_file-copied f src dst fs ne h =
    copy_opened-copied (f.create_fault dst) (f.write_fault dst) src dst fs (open_file f src fs) ne
      (λ s e. opened-some (f.open_fault src) (lookup src fs) s e) h

bak_ne : (dst : Str) → dst ≢ dst ++ str ".bak"
bak_ne dst e = omega (arith, ap length e, length-append dst (str ".bak"))

module _ (codec : Codec) where
  after_copy-disk :
      (src : Str) (c : Option Str × Map Str) (r : Result) → (after_copy codec src c r).1 ≡ c.1
  unfolding after_copy
  after_copy-disk src (some e, fs) r = refl
  after_copy-disk src (none, fs) r = refl

  place-others :
      (f : Faults) (mk : Option Str) (src dst p : Str) (r : Result) (fs : Map Str)
      → dst ≢ p
      → lookup p (place codec f mk src dst r fs).1 ≡ lookup p fs
  unfolding place
  place-others f (some e) src dst p r fs h = refl
  place-others f none src dst p r fs h =
      ap (lookup p) (after_copy-disk src (copy_file f src dst fs) r)
      ∙ copy_file-others f src dst p fs h

  after_backup-safe :
      (f : Faults) (src dst : Str) (c : Option Str × Map Str) (r : Result) (old : Option Str)
      → lookup dst c.1 ≡ old
      → (c.0 ≡ none → lookup (dst ++ str ".bak") c.1 ≡ old)
      → (lookup dst (after_backup codec f src dst c r).1 ≡ old)
        ⊎ (lookup (dst ++ str ".bak") (after_backup codec f src dst c r).1 ≡ old)
  unfolding after_backup
  after_backup-safe f src dst (some e, fs) r old h k = inl h
  after_backup-safe f src dst (none, fs) r old h k = inr (
      place-others f (f.mkdir_fault (codec.dir dst)) src dst (dst ++ str ".bak")
        (record r { backups_created = r.backups_created + 1 }) fs (bak_ne dst)
      ∙ k refl)

  -- A backup action never loses the old content of its destination, whichever of its steps fail:
  -- after it the destination holds what it held, or the file with `.bak` added to the name does.
  pub execute_backup-keeps :
      (faults : Faults) (src dst : Str) (r : Result) (fs : Map Str)
      → (lookup dst (execute_action codec faults action_backup src dst r fs).1 ≡ lookup dst fs)
        ⊎ (lookup (dst ++ str ".bak") (execute_action codec faults action_backup src dst r fs).1
            ≡ lookup dst fs)
  unfolding execute_action
  execute_backup-keeps f src dst r fs =
      after_backup-safe f src dst (copy_file f dst (dst ++ str ".bak") fs) r (lookup dst fs)
        (copy_file-others f dst (dst ++ str ".bak") dst fs (λ e. bak_ne dst (sym e)))
        (λ h. copy_file-copied f dst (dst ++ str ".bak") fs (bak_ne dst) h)
