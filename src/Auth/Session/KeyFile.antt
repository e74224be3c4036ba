-- ===== src/Auth/Session/KeyFile.antt =====
-- The life of the key file of dayshield-core/src/auth/session.rs.
use dayshield_core.Base.{true, Option, none, some, ◌≡◌, length, arith, ok}
use dayshield_core.Auth.Session.{Bytes, KeyAnswers, create_key, load_or_create_key, key_bytes}

create_key_stored :
    (fs : KeyAnswers) (file : Option Bytes) {key : Bytes}
    → (create_key fs file).0 ≡ ok key
    → (key ≡ fs.random) × ((create_key fs file).1 ≡ some key)
unfolding create_key
create_key_stored fs none h = ground arith
create_key_stored fs (some bytes) h = ground arith

-- a load that ends well leaves its result in the file, and has 32 bytes
pub load_or_create_key_stored :
    (fs : KeyAnswers) (file : Option Bytes) {key : Bytes}
    → length fs.random ≡ key_bytes
    → (load_or_create_key fs file).0 ≡ ok key
    → (length key ≡ key_bytes) × ((load_or_create_key fs file).1 ≡ some key)
unfolding load_or_create_key
load_or_create_key_stored fs none {key} r h =
    (ground (arith, create_key_stored fs none {key = key}))
load_or_create_key_stored fs (some bytes) {key} r h =
    (ground (arith, create_key_stored fs (some bytes) {key = key}))

-- Once the key was loaded or created, each later load that can read the file returns the same 32
-- bytes and leaves the file as it is, so that the tokens signed with it stay valid. The generator
-- fills the 32 bytes it is asked for.
pub load_or_create_key-stable :
    (fs later : KeyAnswers) (file : Option Bytes) {key : Bytes}
    → length fs.random ≡ key_bytes
    → (load_or_create_key fs file).0 ≡ ok key
    → later.readable ≡ true
    → (length key ≡ key_bytes)
      × (load_or_create_key later (load_or_create_key fs file).1 ≡ (ok key, some key))
unfolding load_or_create_key
load_or_create_key-stable fs later file {key} r h k =
    let s = load_or_create_key_stored fs file r h in
    (s.0, rw (s.1, load_or_create_key) (ground (arith, s.0, k)))
