-- ===== src/Examples/Accounts.antt =====
-- The dashboard, its cache of locations and its table of connections. bcrypt is a stand-in that marks
-- the password, and hexadecimal digits are the bytes themselves.
use nvda_remote_go.Prelude.{
  ℕ, ◌+◌, ◌≡◌, refl, Bytes, true, false, none, some, List, [], ◌∷◌, ◌++◌, codes, arith, leb, map,
  not, is_empty, ◌&&◌, bytes_eq_refl, if◌then◌else◌, bytes_eq,
}
use nvda_remote_go.Admin.Account.{
  Account, Crypt, admin_username, admin_session_ttl, valid_admin_session, create_admin_session,
  set_admin_password, load_admin_password, check_admin_credentials, admin_request_authorized,
  admin_password_defined,
}
use nvda_remote_go.Admin.Requests.{AdminRequest, Form}
use nvda_remote_go.Admin.Actions.{
  Office, FormText, handle_admin_block_client, handle_admin_unblock_client,
}
use nvda_remote_go.Admin.Pages.{handle_admin_setup}
use nvda_remote_go.Admin.Lifetime.{SessionCall, creates, checks, deletes, run, valid-history}
use nvda_remote_go.Admin.Guard.{actions-unauthorized, opens_session, setup-guarded}
use nvda_remote_go.Admin.Restart.{restarted, IsBcrypt, load-set_admin_password}
use nvda_remote_go.Admin.Duplicates.{ClientInfo, mark_duplicates, alike, mark_duplicates_lem}
use nvda_remote_go.Geo.Cache.{entry_of}
use nvda_remote_go.Geo.Lookups.{
  GeoEvent, requests, shows, completes, happen_each, fresh, count, running_once,
}
use nvda_remote_go.Examples.Hubs.{empty_hub}

-- The stand-in for `strings.TrimSpace` takes the newline off that ends the file.
abbrev without_last : Bytes → Bytes
without_last [] = []
without_last (x ∷ []) = []
without_last (x ∷ y ∷ s) = x ∷ without_last (y ∷ s)

abbrev crypt : Crypt
crypt = record {
  generate = λ p. some (1 ∷ p);
  compare = λ h p. bytes_eq h (1 ∷ p);
  encode_hex = λ b. b;
  trim_space = without_last;
}

abbrev nobody : Account
nobody = record { password_hash = []; sessions = []; has_file = true; file = none }

abbrev later : List SessionCall
later =
    creates 2 (some (codes "other"))
    ∷ checks 7200000000000 (codes "token")
    ∷ deletes (codes "other")
    ∷ []

valid-history_example :
    (valid_admin_session 7200000000001
      (codes "token")
      (run crypt (create_admin_session crypt 1 (some (codes "token")) nobody).0 later)).1
    ≡ leb 7200000000001 (1 + admin_session_ttl)
unfolding bytes_eq
valid-history_example =
    valid-history crypt 1 7200000000001 (codes "token") nobody later refl
      (refl, (omega arith, (refl, tt)))

abbrev form : Form
form = record {
  id = codes "1";
  ip = codes "10.0.0.1";
  channel = codes "room";
  username = admin_username;
  password = codes "password";
  confirm = codes "password";
}

abbrev from_elsewhere : AdminRequest
from_elsewhere = record {
  method = codes "POST";
  path = codes "/admin/clients/block";
  cookie = none;
  fetch_site = [];
  origin = [];
  host = codes "relay";
  form = some form;
}

abbrev office : Office
office = record { account = nobody; hub = empty_hub }

abbrev text : FormText
text = record { atoi = λ b. none; trim_space = λ b. b }

actions-unauthorized_example :
    ((handle_admin_block_client text
        (record { equal_fold = bytes_eq })
        5
        from_elsewhere
        office).0.hub
      ≡ empty_hub)
    × ((handle_admin_unblock_client text
          (record { equal_fold = bytes_eq })
          5
          from_elsewhere
          office).0.hub
        ≡ empty_hub)
unfolding admin_request_authorized bytes_eq
actions-unauthorized_example =
    actions-unauthorized text (record { equal_fold = bytes_eq }) 5 from_elsewhere office refl

abbrev installed : Account
installed = record nobody { password_hash = codes "hash" }

setup-guarded_example :
    (opens_session crypt 5 true
        (some (codes "token"))
        from_elsewhere
        installed
        (handle_admin_setup crypt 5 true (some (codes "token")) from_elsewhere installed).1
      ≡ false)
    × ((handle_admin_setup crypt 5 true (some (codes "token")) from_elsewhere installed).0
        ≡ installed)
unfolding admin_password_defined
setup-guarded_example =
    setup-guarded crypt 5 true (some (codes "token")) from_elsewhere installed refl

without_last-append : (s : Bytes) (c : ℕ) → without_last (s ++ c ∷ []) ≡ s
without_last-append [] c = refl
without_last-append (x ∷ []) c = refl
without_last-append (x ∷ y ∷ s) c = ground (arith, without_last-append (y ∷ s) c)

crypt-IsBcrypt : IsBcrypt crypt
crypt-IsBcrypt = record {
  matches = λ p h e. ground (arith, e, bytes_eq_refl (1 ∷ p));
  not_empty = λ p h e. ground (arith, e);
  is_trimmed = λ p h e. without_last-append h 10;
}

load-set_admin_password_example :
    check_admin_credentials crypt admin_username (codes "password") (
      load_admin_password crypt
        (restarted (set_admin_password crypt true (codes "password") nobody).0))
    ≡ true
unfolding set_admin_password
load-set_admin_password_example =
    load-set_admin_password crypt true (codes "password") nobody crypt-IsBcrypt refl refl

abbrev twins : List ClientInfo
twins =
    record { ip = codes "a"; role = codes "slave"; channel = codes "room"; duplicate = false }
    ∷ record { ip = codes "a"; role = codes "slave"; channel = codes "room"; duplicate = false }
    ∷ record { ip = codes "a"; role = codes "master"; channel = codes "room"; duplicate = false }
    ∷ []

mark_duplicates_lem_example :
    mark_duplicates twins
    ≡ map
        (λ (i : ClientInfo). record i {
          duplicate = not (is_empty i.channel) && leb 2 (alike i twins);
        })
        twins
mark_duplicates_lem_example =
    mark_duplicates_lem twins ((refl, refl), ((refl, refl), ((refl, refl), tt)))

abbrev asked : List GeoEvent
asked =
    requests 1 (codes "a")
    ∷ shows 2 (codes "a")
    ∷ completes 3 (codes "a") none
    ∷ shows 4 (codes "a")
    ∷ []

running_once_example :
    count (codes "a") (happen_each (λ ip. true) (fresh (λ ip. true)) asked).running ≡ (
      if (entry_of
        (codes "a")
        (happen_each (λ ip. true) (fresh (λ ip. true)) asked).cache).in_flight
      then 1
      else 0)
running_once_example = running_once (λ ip. true) asked (codes "a")
