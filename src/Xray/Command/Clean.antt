-- ===== src/Xray/Command/Clean.antt =====
-- The temporary files of internal/xray/process.go and runtime.go.
use xnode_agent.Prelude.{
  Bool, true, false, ◌&&◌, Option, none, some, [], Str, lookup, insert, lookup-insert_self,
  lookup-remove, arith, ◌≢◌, ◌⊎◌, str_eq, ◌≡◌, refl, ap, ◌∙◌,
}
use xnode_agent.Files.{Disk, left_out, clean_up}
use xnode_agent.Xray.Command.{
  Shell, Setup, Temporary, create_fails, write_fails, close_fails, written, with_temporary,
  validate_command, validate, validate_content,
}

unfoldable pub is_written : Temporary → Bool
is_written create_fails = false
is_written (write_fails part) = false
is_written close_fails = false
is_written written = true

-- The core's verdict on the file that it is given.
abbrev pub verdict : (Str → Bool) → Option Str → Bool
verdict judges none = false
verdict judges (some c) = judges c

clean_up-same :
    (removes : Bool) (name n : Str) (d d' : Disk)
    → lookup n d ≡ lookup n d'
    → lookup n (clean_up removes name d) ≡ lookup n (clean_up removes name d')
unfolding clean_up
clean_up-same removes name n d d' h =
    ground (arith, h, lookup-remove name n d, lookup-remove name n d')

module _ (name : Str) (d : Disk) (fresh : lookup name d ≡ none) (removes : Bool) where
  with_temporary-clean :
      (t : Temporary) (content : Str) (use_it : Disk → Bool × Disk) (n : Str)
      → (lookup n (use_it (insert name content d)).1 ≡ lookup n (insert name content d))
      → (n ≢ name) ⊎ (removes ≡ true)
      → lookup n (with_temporary removes t name content use_it d).1 ≡ lookup n d
  unfolding with_temporary
  with_temporary-clean create_fails content use_it n keeps h = refl
  with_temporary-clean (write_fails part) content use_it n keeps h =
      left_out name [] [] d fresh removes part n h
  with_temporary-clean close_fails content use_it n keeps h =
      left_out name [] [] d fresh removes content n h
  with_temporary-clean written content use_it n keeps h =
      clean_up-same removes name n _ _ keeps ∙ left_out name [] [] d fresh removes content n h

  with_temporary-result :
      (t : Temporary) (content : Str) (use_it : Disk → Bool × Disk)
      → (with_temporary removes t name content use_it d).0
        ≡ (is_written t && (use_it (insert name content d)).0)
  unfolding with_temporary is_written
  with_temporary-result create_fails content use_it = refl
  with_temporary-result (write_fails part) content use_it = refl
  with_temporary-result close_fails content use_it = refl
  with_temporary-result written content use_it = refl

  -- Where `run -test` judges the file that it is named and writes no file, ValidateContent accepts a content
  -- exactly if its directory is there, it could be written to the temporary file, and the core accepts it.
  -- Every file is then as it was, whichever step fails, and the temporary file is gone if os.Remove
  -- works; CreateTemp's name is one that no file has.
  pub validate_content-clean :
      (shell : Shell) (m : Setup) (judges : Str → Bool) (has_dir : Bool) (t : Temporary)
      (content n : Str)
      → ((file : Str) (now : Disk)
          → (shell (validate_command shell m file) now).0 ≡ verdict judges (lookup file now))
      → ((file : Str) (now : Disk) (other : Str)
          → lookup other (shell (validate_command shell m file) now).2 ≡ lookup other now)
      → (n ≢ name) ⊎ (removes ≡ true)
      → ((validate_content shell m has_dir removes t name content d).0
          ≡ (has_dir && is_written t && judges content))
        × (lookup n (validate_content shell m has_dir removes t name content d).1 ≡ lookup n d)
  unfolding validate_content
  validate_content-clean shell m judges false t content n h keeps gone = (refl, refl)
  validate_content-clean shell m judges true t content n h keeps gone = (
    with_temporary-result t content (validate shell m name)
        ∙ ap (λ b. is_written t && b)
            (unfold validate in
              h name (insert name content d)
              ∙ ap (verdict judges) (lookup-insert_self name content d)),
    with_temporary-clean t content (validate shell m name) n
        (unfold validate in keeps name (insert name content d) n) gone,
  )
