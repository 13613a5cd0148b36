-- ===== src/Cli/Accounts.antt =====
-- A new account, and the session that it starts.
use noktulo.Prelude.{
  ℕ, ◌≡◌, refl, List, [], ◌∷◌, ◌++◌, Option, =ℕ=_iff, All, String, Returns, okay, list_eq, nat_eq,
  list_beq_refl,
}
use noktulo.Digests.{Digests}
use noktulo.Key.{Key}
use noktulo.Address.{Address, from_pubkey}
use noktulo.Post.{UserAttribute, Post, Signing, verify_attribute, verify_signed}
use noktulo.User.{UserHandle}
use noktulo.User.Posting.{IsOwn}
use noktulo.Timeline
use noktulo.ApiServer.Subscriptions.{start_subscription_lem}
use noktulo.Cli.Lines.{Line}
use noktulo.Cli.Sessions.{IsSound, IsKnown}
use noktulo.Cli.Users.{Client, new_handle, create_new_user, subscribe_all, start_session}

module _ (d : Digests) (s : Signing) (to_vec : Post → List ℕ)
    (attr_to_vec : UserAttribute → List ℕ) where
  -- A user whose attributes are signed by the user's own key, under its address.
  pub record IsAccount (handle : UserHandle) : Type 0 where
    pub own : IsOwn d s to_vec handle
    pub attributes :
        verify_attribute d s attr_to_vec handle.sig_attr (s.public_key handle.signing_key) ≡ okay tt
    pub known : All IsKnown handle.followings

  new_handle-IsAccount :
      (text_of : Line → String) (now : ℕ) (secret_key : List ℕ) (name description : Line)
      → IsAccount (new_handle d s attr_to_vec text_of now secret_key name description)
  unfolding new_handle verify_attribute verify_signed
  new_handle-IsAccount text_of now secret_key name description =
      let handle = new_handle d s attr_to_vec text_of now secret_key name description in
      let message = attr_to_vec handle.sig_attr.attr in
      record {
        own = (tt, tt);
        attributes =
            rw
              (
                verify_attribute,
                list_beq_refl (from_pubkey d (s.public_key secret_key)),
                (=ℕ=_iff _ _).1 (s.sign_length secret_key message),
                s.verify-sign secret_key message,
              )
              refl;
        known = tt;
      }

  pub create_new_user-IsAccount :
      (text_of : Line → String) (now : ℕ) (secret_key : List ℕ) (name description : Line)
      (client : Client)
      → Returns
          (create_new_user d s attr_to_vec text_of now secret_key name description client)
          λ client'.
            (handle : UserHandle) × (client'
              ≡ record client { user_handles = client.user_handles ++ handle ∷ [] })
            × (handle.signing_key ≡ secret_key)
            × (handle.posts ≡ [])
            × IsAccount handle
  unfolding create_new_user new_handle
  create_new_user-IsAccount text_of now secret_key name description client =
      let handle = new_handle d s attr_to_vec text_of now secret_key name description in
      let account = new_handle-IsAccount text_of now secret_key name description in
      (
        record client { user_handles = client.user_handles ++ handle ∷ [] },
        rw (create_new_user, account.attributes) refl,
        (handle, refl, refl, refl, account),
      )

  subscribe_all-Returns :
      (fill : ℕ → List ℕ) (nodes : List (Address × Key))
      (followings : List (Address × Option UserAttribute))
      → All IsKnown followings
      → Returns (subscribe_all fill nodes followings) λ _. Unit {0}
  unfolding subscribe_all
  subscribe_all-Returns fill nodes [] h = (nodes, refl, tt)
  subscribe_all-Returns fill nodes ((a, attr) ∷ rest) h =
      let (nodes', started, _) = start_subscription_lem fill nodes a h.0 in
      let (all, e, _) = subscribe_all-Returns fill nodes' rest h.1 in (all, rw started e, tt)

  pub start_session-IsSound :
      (fill : ℕ → List ℕ) (client : Client) (handle : UserHandle)
      → IsOwn d s to_vec handle
      → All IsKnown handle.followings
      → Returns
          (start_session fill client handle)
          λ t. IsSound d s to_vec t × (t.user_handle ≡ handle)
  unfolding start_session Timeline.new
  start_session-IsSound fill client handle own known =
      let (nodes, e, _) = subscribe_all-Returns fill [] handle.followings known in
      (
        record {
          user_handle = handle;
          timeline = Timeline.new;
          nodes = nodes;
          pubkey_dict = client.pubkey_dict;
          published = [];
          printed = [];
        },
        rw (start_session, e) refl,
        (record { own = own; known = known; shown = tt; published = tt }, refl),
      )
