-- ===== src/CommandLine/Password.antt =====
-- src/CommandLineInterface.cpp, `PasswordParameter`: the password, of what is read from the terminal
-- and of the additional passphrase. What the two questions on the terminal and the descriptor give is
-- an argument.
use diffmonger.Base.{◌≡◌, refl, Bool, true, false, Option, none, some, [], ◌++◌, if◌then◌else◌, ◌∷◌}
use diffmonger.Base.Text.{bytes_eq, bytes_eq_refl, is_empty}
use diffmonger.Error.{Result, ok, err, ◌>>=◌, bad_value}
use diffmonger.Parser.TextMap.{Text}

-- `ttyPassword`
abbrev pub confirmed : Bool → Text → Result Text → Result Text
confirmed false password again = ok password
confirmed true password again =
    again >>= λ other. if bytes_eq password other then ok password else err bad_value

unfoldable pub tty_password : Bool → Bool → Result Text → Result Text → Result Text
tty_password true check tty again = ok []
tty_password false check tty again = tty >>= λ password. confirmed check password again

-- The password with the additional one; both tests for an empty one are made.
abbrev pub with_additional : Text → Option (Result Text) → Result Text
with_additional password none = ok password
with_additional password (some read) = read >>= λ additional.
    if is_empty additional
    then err bad_value
    else if is_empty (password ++ additional)
    then err bad_value
    else ok (password ++ additional)

-- `readPassword`: whether the terminal is not asked, and whether it is asked twice.
unfoldable pub read_password :
    Bool → Bool → Result Text → Result Text → Option (Result Text) → Result Text
read_password disabled check tty again additional =
    tty_password disabled check tty again >>= λ password. with_additional password additional

-- `maybeReadPassword`
unfoldable pub maybe_read_password :
    Bool → Bool → Bool → Result Text → Result Text → Option (Result Text) → Result (Option Text)
maybe_read_password false disabled check tty again additional = ok none
maybe_read_password true disabled check tty again additional =
    read_password disabled check tty again additional >>= λ password. ok (some password)

longer : (xs ys : Text) → is_empty ys ≡ false → is_empty (xs ++ ys) ≡ false
longer [] ys h = h
longer (x ∷ xs) ys h = refl

-- With an additional passphrase that is not empty the password is that of the terminal, if it is
-- asked, and then the additional one; two different answers are refused; and without either the
-- password is empty, which nothing refuses.
pub read_password-append :
    (check : Bool) (tty again : Result Text) (password other additional : Text)
    → is_empty additional ≡ false
    → (read_password false check (ok password) (ok password) (some (ok additional))
        ≡ ok (password ++ additional))
      × (read_password true check tty again (some (ok additional)) ≡ ok additional)
      × (bytes_eq password other ≡ false
          → read_password false true (ok password) (ok other) (some (ok additional))
            ≡ err bad_value)
      × (read_password true check tty again none ≡ ok [])
unfolding read_password tty_password
read_password-append false tty again password other additional h =
    (rw (h, longer password additional h) refl, rw h refl, λ differs. rw differs refl, refl)
read_password-append true tty again password other additional h = (
  rw (bytes_eq_refl password, h, longer password additional h) refl,
  rw h refl,
  λ differs. rw differs refl,
  refl,
)
