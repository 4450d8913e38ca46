-- ===== src/Users/Examples.antt =====
-- Users of a server with one team, in tables that are lists of rows.
use adaptarr_server.Prelude.{
  ℕ, ◌<◌, zero, suc, ◌+◌, ◌≡◌, ◌≢◌, ◌↔◌, ◌⊎◌, inl, inr, ◌==◌, ==_iff, ◌&&◌, both, parts, Bool, true,
  false, Option, none, some, String, str_eq, List, [], ◌∷◌, eq_iff, replicate, Result, ok, err,
  refl, sym, ap, ◌∙◌, arith,
}
use adaptarr_server.Storage.{In}
use adaptarr_server.Storage.Lists.{list_table, find}
use adaptarr_server.Sessions.{Session}
use adaptarr_server.Drafts.{TeamMember}
use adaptarr_server.Permissions.Plain.{plain, zip_bits, zip_bits_lem}
use adaptarr_server.Audit.{user}
use adaptarr_server.Users.{
  User, Invite, PasswordResetToken, Team, Role, Tables, State, Argon2, Sealing, DbError, is_team,
}
use adaptarr_server.Sessions.{before_request}
use adaptarr_server.Users.Accounts.{
  CreateUserError, duplicate, empty_name, create_user, change_password, authenticate,
}
use adaptarr_server.Users.Tokens.{get_code, token_from_code, fulfil_token, expired}
use adaptarr_server.Users.Invites.{
  Invitation, create_invite, invited_role, invite_from_code, fulfil_new,
}
use adaptarr_server.Users.Created.{HasAccount, Stored, account, after_create, create_user_correct}
use adaptarr_server.Users.SignIn.{create_user-authenticate}
use adaptarr_server.Users.Passwords.{
  IsStored, changed, after_change, Changed, change_password_correct, change_password-before_request,
}
use adaptarr_server.Users.Resets.{token, issued, renewed, create_token-fulfil_token}
use adaptarr_server.Users.Valid.{IsValid}
use adaptarr_server.Users.Steps.{Step, Reach, later, leave}
use adaptarr_server.Users.Steps
use adaptarr_server.Users.Reached.{Reach-IsValid}
use adaptarr_server.Users.Invited.{create_invite-fulfil_new, Reach-fulfil_new}
use adaptarr_server.Users.Members.{permissions, Flags, Member, delete_member}
use adaptarr_server.Users.Teams.{role_id, role_team}
use adaptarr_server.Users.Admitted.{membership}
use adaptarr_server.Permissions.Names.{all_flags, require}
use adaptarr_server.Permissions.{has}
use adaptarr_server.Users.Granted.{IsGranted, require-permissions}

abbrev db : Tables
db = record {
  users = list_table User User.id;
  sessions = list_table Session Session.id;
  tokens = list_table PasswordResetToken PasswordResetToken.id;
  invites = list_table Invite Invite.id;
  teams = list_table Team Team.id;
  roles = list_table Role Role.id;
  team_members = list_table TeamMember TeamMember.user;
}

same_bytes : List ℕ → List ℕ → Bool
same_bytes [] [] = true
same_bytes [] (y ∷ ys) = false
same_bytes (x ∷ xs) [] = false
same_bytes (x ∷ xs) (y ∷ ys) = x == y && same_bytes xs ys

same_bytes_iff : (xs ys : List ℕ) → (same_bytes xs ys ≡ true) ↔ (xs ≡ ys)
unfolding same_bytes
same_bytes_iff [] [] = (λ _. refl, λ _. refl)
same_bytes_iff [] (y ∷ ys) = (λ e. cc e, λ e. cc e)
same_bytes_iff (x ∷ xs) [] = (λ e. cc e, λ e. cc e)
same_bytes_iff (x ∷ xs) (y ∷ ys) = (
  λ e.
      let (a, b) = parts (x == y) (same_bytes xs ys) e in
      cc ((==_iff x y).0 a, (same_bytes_iff xs ys).0 b),
  λ e. both ((==_iff x y).1 (cc e)) ((same_bytes_iff xs ys).1 (cc e)),
)

-- The number of characters stands for the hash.
size : String → ℕ
size String.[] = 0
size (String.◌∷◌ c s) = suc (size s)

argon2 : Argon2
argon2 = record {
  hash_raw = λ password salt. size password ∷ salt;
  verify_raw = λ password salt hash. same_bytes hash (size password ∷ salt);
  verify_raw_iff = λ password salt hash. same_bytes_iff hash (size password ∷ salt);
}

-- A byte in unary.
put : ℕ → String → String
put zero s = String.◌∷◌ "b" s
put (suc n) s = String.◌∷◌ "a" (put n s)

encode : List ℕ → String
encode [] = ""
encode (x ∷ xs) = put x (encode xs)

cons : ℕ → Option (List ℕ) → Option (List ℕ)
cons x none = none
cons x (some xs) = some (x ∷ xs)

decode : ℕ → String → Option (List ℕ)
decode n String.[] = some []
decode n (String.◌∷◌ c s) = elim (str_eq (String.◌∷◌ c String.[]) "a") [
  | true ↦ decode (suc n) s
  | false ↦ cons n (decode 0 s)
]

decode-put : (k n : ℕ) (s : String) → decode k (put n s) ≡ cons (k + n) (decode 0 s)
unfolding decode put
decode-put k zero s = ap (λ m. cons m (decode 0 s)) (omega arith)
decode-put k (suc n) s = decode-put (suc k) n s ∙ ap (λ m. cons m (decode 0 s)) (omega arith)

decode-encode : (xs : List ℕ) → decode 0 (encode xs) ≡ some xs
unfolding decode encode cons
decode-encode [] = refl
decode-encode (x ∷ xs) =
    let from_zero : 0 + x ≡ x = omega arith in
    decode-put 0 x (encode xs)
    ∙ ap (λ m. cons m (decode 0 (encode xs))) from_zero
    ∙ ap (cons x) (decode-encode xs)

sealing : Sealing
sealing = record {
  aead = record {
    seal_in_place_append_tag = λ key nonce data'. data';
    open_in_place = λ key nonce data'. some data';
    open-seal = λ key nonce data'. refl;
  };
  codec = record {
    serialize = λ n. n ∷ [];
    deserialize = λ bytes. elim bytes [ [] ↦ none | n ∷ rest ↦ some n ];
    deserialize-serialize = λ n rest. refl;
  };
  base64 = record {
    encode_config = encode;
    decode_config = decode 0;
    decode-encode = decode-encode;
  };
}

flags : Flags
flags = record {
  sets = plain;
  from_bits_truncate = zip_bits (λ x y. x && y) 32;
  from_bits_truncate_bit = λ all b k lt. zip_bits_lem (λ x y. x && y) 32 k all b lt;
}

abbrev old_email : String
old_email = "e@x.org"

abbrev new_email : String
new_email = "n@x.org"

abbrev name : String
name = "New"

abbrev secret : String
secret = "secret"

abbrev key : List ℕ
key = replicate 32 7

abbrev nonce : List ℕ
nonce = replicate 12 1

abbrev editor : User
editor = record {
  id = 4;
  email = old_email;
  name = "Editor";
  password = 3 ∷ [];
  salt = [];
  is_super = false;
  language = "en";
}

abbrev session : Session
session = record { id = 1; user = 4; expires = 900; last_used = 100; is_elevated = false }

abbrev team : Team
team = record { id = 2; name = "Physics" }

abbrev start : State db
start = record {
  users = editor ∷ [];
  sessions = session ∷ [];
  tokens = [];
  invites = [];
  teams = team ∷ [];
  roles = [];
  team_members = record { team = 2; user = 4; permissions = 1; role = none } ∷ [];
  audit = record { actor = some (user 4); log = [] };
}

only_editor : (u : User) → In u (editor ∷ []) → u ≡ editor
only_editor u (inl e) = e
only_editor u (inr e) = absurd e

start-IsStored : IsStored start editor
start-IsStored = (inl refl, λ r m e. only_editor r m, λ r m e. only_editor r m)

start-IsValid : IsValid start
start-IsValid = record {
  ids = λ u v m n e. only_editor u m ∙ sym (only_editor v n);
  emails = λ u v m n e. only_editor u m ∙ sym (only_editor v n);
  invites = λ i u m. absurd m;
  members = λ m there. elim there [
    | inl e ↦ (editor, inl refl, sym (ap TeamMember.user e))
    | inr e ↦ absurd e
  ];
}

apart : old_email ≢ new_email
apart e = cc ((eq_iff old_email new_email).1 e)

new_address : ¬ HasAccount new_email start
new_address (u, inl e, same) = apart (sym (ap User.email e) ∙ same)
new_address (u, inr e, same) = absurd e

abbrev attempt : Result CreateUserError (User × State db)
attempt = create_user argon2 (9 ∷ []) none new_email name secret false "en" start

create_user_correct_example :
    ((name ≡ "") × (attempt ≡ err empty_name))
    ⊎ (((name ≢ "") × (secret ≡ "") × (attempt ≡ err CreateUserError.empty_password))
        ⊎ (((name ≢ "") × (secret ≢ "") × HasAccount new_email start × (attempt ≡ err duplicate))
            ⊎ ((name ≢ "")
                × (secret ≢ "")
                × (¬ HasAccount new_email start)
                × (attempt
                    ≡ ok (
                      account argon2 (9 ∷ []) none new_email name secret false "en" start,
                      after_create argon2 (9 ∷ []) none new_email name secret false "en" start,
                    ))
                × Stored argon2 (9 ∷ []) none new_email name secret false "en" start)))
create_user_correct_example =
    create_user_correct argon2 (9 ∷ []) none new_email name secret false "en" start

create_user-authenticate_example :
    (u : User) × (after : State db) × (create_user argon2
        (9 ∷ [])
        none
        new_email
        name
        secret
        false
        "en"
        start
      ≡ ok (u, after))
    × ((other : String)
        → (authenticate argon2 new_email other after ≡ ok u)
          ↔ (argon2.hash_raw secret (9 ∷ []) ≡ argon2.hash_raw other (9 ∷ [])))
create_user-authenticate_example =
    create_user-authenticate argon2 (9 ∷ []) none new_email name secret false "en" start (λ e. cc e)
      (λ e. cc e) new_address

only_session : (r : Session) → In r (session ∷ []) → r ≡ session
only_session r (inl e) = e
only_session r (inr e) = absurd e

change_password-before_request_example :
    (after : State db) × (change_password argon2 (9 ∷ []) editor secret start
      ≡ ok (changed argon2 (9 ∷ []) editor secret (user 4) start, after))
    × (before_request db.sessions
          (λ cookie. some cookie)
          500
          (some 1)
          (record { sessions = after.sessions; actor = none })
        ≡ (none, record { sessions = after.sessions; actor = none }))
change_password-before_request_example =
    change_password-before_request argon2 (9 ∷ []) editor secret (user 4) start (λ e. cc e) refl
      start-IsStored (λ cookie. some cookie) 500 1 session refl refl (λ r m e. only_session r m)

change_password_correct_example :
    (change_password argon2 (9 ∷ []) editor secret start
      ≡ ok (
        changed argon2 (9 ∷ []) editor secret (user 4) start,
        after_change argon2 (9 ∷ []) editor secret (user 4) start,
      ))
    × Changed argon2 (9 ∷ []) editor secret (user 4) start
change_password_correct_example =
    change_password_correct argon2 (9 ∷ []) editor secret (user 4) start (λ e. cc e) refl
      start-IsStored

create_token-fulfil_token_example :
    (code : String) × (get_code sealing key nonce (token 100 editor start).id ≡ ok code)
    × (token_from_code sealing key 200 code (issued 100 editor start) ≡ ok (token 100 editor start))
    × (token_from_code sealing key 2000 code (issued 100 editor start) ≡ err expired)
    × (after : State db) × (fulfil_token argon2
          (9 ∷ [])
          (token 100 editor start)
          secret
          (issued 100 editor start)
        ≡ ok (renewed 100 editor start argon2 (9 ∷ []) secret, after))
    × (token_from_code sealing key 300 code after ≡ err expired)
    × ((other : String)
        → (authenticate argon2 old_email other after
            ≡ ok (renewed 100 editor start argon2 (9 ∷ []) secret))
          ↔ (argon2.hash_raw secret (9 ∷ []) ≡ argon2.hash_raw other (9 ∷ [])))
create_token-fulfil_token_example =
    create_token-fulfil_token 100 editor start argon2 (9 ∷ []) secret sealing key nonce 200 2000 300
      refl refl (omega arith) (omega arith) (λ e. cc e) start-IsStored

create_invite-fulfil_new_example :
    (i : Invitation) × (after : State db) × (code : String) × (u : User) × (last : State db)
    × (create_invite {E = DbError} 100 team new_email none 3 start ≡ ok (i, after))
    × (get_code sealing key nonce i.invite.id ≡ ok code)
    × (invite_from_code sealing key 5000 code after ≡ ok i)
    × (invite_from_code sealing key 700000 code after ≡ err expired)
    × (fulfil_new flags argon2 (9 ∷ []) i name secret "en" after ≡ ok (u, last))
    × In (membership team u (flags.from_bits_truncate all_flags 3) none) last.team_members
    × ((other : String)
        → (authenticate argon2 new_email other last ≡ ok u)
          ↔ (argon2.hash_raw secret (9 ∷ []) ≡ argon2.hash_raw other (9 ∷ [])))
    × (invite_from_code sealing key 6000 code last ≡ err expired)
unfolding find is_team invited_role role_id role_team
create_invite-fulfil_new_example =
    create_invite-fulfil_new argon2 flags sealing key nonce (9 ∷ []) 100 5000 700000 6000 team
      new_email none 3 name secret "en" (user 4) start refl refl (omega arith) (omega arith)
      (λ e. cc e) (λ e. cc e) refl start-IsValid new_address refl refl refl

leave_editor : Member
leave_editor = record {
  member = record { team = 2; user = 4; permissions = 1; role = none };
  role = none;
}

left : State db
left = delete_member leave_editor start

run_left : Reach argon2 flags start left
unfolding left
run_left = later Steps.start (leave leave_editor)

Reach-IsValid_example : IsValid left
Reach-IsValid_example = Reach-IsValid argon2 flags start left run_left start-IsValid

abbrev asked : Invitation
asked = record {
  invite = record {
    id = 8;
    email = new_email;
    expires = 900000;
    role = none;
    team = 2;
    permissions = 3;
    user = none;
  };
  team = team;
  user = none;
}

abbrev waiting : State db
waiting = record start { invites = asked.invite ∷ [] }

waiting-IsValid : IsValid waiting
waiting-IsValid = record {
  ids = start-IsValid.ids;
  emails = start-IsValid.emails;
  invites = λ i u m new here same. elim m [
    | inl e ↦ new_address (u, here, same ∙ ap Invite.email e)
    | inr e ↦ absurd e
  ];
  members = start-IsValid.members;
}

Reach-fulfil_new_example :
    (u : User) × (last : State db) × (fulfil_new flags argon2
        (9 ∷ [])
        asked
        name
        secret
        "en"
        waiting
      ≡ ok (u, last))
    × IsValid last
unfolding invited_role role_team
Reach-fulfil_new_example =
    Reach-fulfil_new argon2 flags (9 ∷ []) asked name secret "en" none waiting waiting
      waiting-IsValid Steps.start (inl refl) refl (λ e. cc e) (λ e. cc e) refl refl

abbrev member : Member
member = record {
  member = record { team = 2; user = 4; permissions = 0x80; role = some 5 };
  role = some (record { id = 5; name = "Lead"; permissions = 0x10; team = 2 });
}

require-permissions_example :
    (require flags.sets (permissions flags member) 0x90 ≡ ok tt)
    ↔ ((k : ℕ) → k < 32 → has 0x90 k ≡ true → IsGranted flags member k)
require-permissions_example = require-permissions flags member 0x90
