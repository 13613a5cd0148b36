-- ===== src/Cli/Users.antt =====
-- src/main.rs: the accounts of the command line, from `CLI::init` to the choice of a user.
use noktulo.Prelude.{
  expect, ℕ, ◌+◌, ◌^◌, List, [], ◌∷◌, ◌++◌, Option, ltb, ◌=ℕ=◌, list_eq, nat_eq, if◌then◌else◌,
  length, set, String, Run, ok, ◌>>=◌, unwrap,
}
use noktulo.Prelude.Assoc.{insert}
use noktulo.Digests.{Digests}
use noktulo.Key.{Key}
use noktulo.Address.{Address, from_pubkey}
use noktulo.Post.{UserAttribute, Signing, verify_attribute}
use noktulo.User.{UserHandle}
use noktulo.Timeline
use noktulo.ApiServer.Router.{start_subscription}
use noktulo.Cli.{Session}
use noktulo.Cli.Lines.{Line, trim, parse_unsigned}

-- `CLI`, without the controller
pub record Client : Type 0 where
  pub user_handles : List UserHandle
  pub pubkey_dict : List (Address × List ℕ)

module _ (d : Digests) (s : Signing) where
  -- The loop over the stored keys in `init`
  unfoldable pub known_keys : List (Address × List ℕ) → List (List ℕ) → List (Address × List ℕ)
  known_keys dict [] = dict
  known_keys dict (bytes ∷ rest) =
      known_keys (if s.is_point bytes then insert (from_pubkey d bytes) bytes dict else dict) rest

  -- `attr_to_vec` is `serde_json::to_vec` on attributes; the two lines are the answers.
  unfoldable pub new_handle :
      (UserAttribute → List ℕ) → (Line → String) → ℕ → List ℕ → Line → Line → UserHandle
  new_handle attr_to_vec text_of now secret_key name description =
      let attr : UserAttribute = record {
        name = text_of (trim name);
        created_at = now;
        description = text_of (trim description);
      } in
      record {
        sig_attr = record {
          addr = from_pubkey d (s.public_key secret_key);
          attr = attr;
          signature = s.sign secret_key (attr_to_vec attr);
        };
        signing_key = secret_key;
        followings = [];
        posts = [];
      }

  -- `sig_attr.verify(&public_key).unwrap()`, then the new handle is stored.
  unfoldable pub create_new_user :
      (UserAttribute → List ℕ) → (Line → String) → ℕ → List ℕ → Line → Line → Client → Run Client
  unfolding new_handle
  create_new_user attr_to_vec text_of now secret_key name description client =
      let handle = new_handle attr_to_vec text_of now secret_key name description in
      expect (verify_attribute d s attr_to_vec handle.sig_attr (s.public_key secret_key)) >>= λ _.
      ok (record client { user_handles = client.user_handles ++ handle ∷ [] })

-- The subscriptions to the followings of a user, before the loop of `timeline`
unfoldable pub subscribe_all :
    (ℕ → List ℕ)
    → List (Address × Key)
    → List (Address × Option UserAttribute)
    → Run (List (Address × Key))
subscribe_all fill nodes [] = ok nodes
subscribe_all fill nodes ((addr, attr) ∷ rest) =
    start_subscription fill nodes addr >>= λ nodes'. subscribe_all fill nodes' rest

unfoldable pub start_session : (ℕ → List ℕ) → Client → UserHandle → Run Session
unfolding subscribe_all
start_session fill client handle = subscribe_all fill [] handle.followings >>= λ nodes. ok (record {
  user_handle = handle;
  timeline = Timeline.new;
  nodes = nodes;
  pubkey_dict = client.pubkey_dict;
  published = [];
  printed = [];
})

-- The branches of `cli`
pub data Choice : Type 0 where
  user : ℕ → Choice
  new_account leave invalid_index : Choice

unfoldable pub choose : Client → Line → Run Choice
choose client line = do
  index ← unwrap (parse_unsigned (2 ^ 64) (trim line))
  ok (
      if ltb index (length client.user_handles)
      then user index
      else if index =ℕ= length client.user_handles
      then new_account
      else if index =ℕ= length client.user_handles + 1
      then leave
      else invalid_index)

-- `self.user_handles[index] = new_handle`, with what the session learned of keys
abbrev pub ended : Client → ℕ → Session → Client
ended client index t = record {
  user_handles = set client.user_handles index t.user_handle;
  pubkey_dict = t.pubkey_dict;
}
