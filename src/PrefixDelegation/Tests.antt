-- ===== src/PrefixDelegation/Tests.antt =====
-- Runs and an instance of the tracked addresses.
use dayshield_core.Base.{some, none, ◌≡◌, refl, arith}
use dayshield_core.Base.Text.{codes}
use dayshield_core.PrefixDelegation.{compute_track_address, read_delegated_prefix}
use dayshield_core.PrefixDelegation.Address.{IsTracked, compute_track_address-IsTracked}

subnet_test :
    compute_track_address (codes "2001:db8:cafe::/48") 5 64 1 ≡ some (codes "2001:db8:cafe:5::1/64")
unfolding compute_track_address
subnet_test = refl

overflow_test : compute_track_address (codes "2001:db8::/60") 16 64 1 ≡ none
unfolding compute_track_address
overflow_test = refl

shorter_test : compute_track_address (codes "2001:db8::/56") 3 48 1 ≡ none
unfolding compute_track_address
shorter_test = refl

-- without room for the host, two subnets have one address
shared_test :
    compute_track_address (codes "2001:db8::/120") 2 128 1
    ≡ compute_track_address (codes "2001:db8::/120") 3 128 1
unfolding compute_track_address
shared_test = refl

read_test : read_delegated_prefix (some (codes "2001:db8::/56\n")) ≡ some (codes "2001:db8::/56")
unfolding read_delegated_prefix
read_test = refl

third : compute_track_address (codes "2001:db8::/56") 3 64 1 ≡ some (codes "2001:db8:0:3::1/64")
unfolding compute_track_address
third = refl

compute_track_address-IsTracked_example :
    IsTracked (codes "2001:db8::/56") 3 64 1 (codes "2001:db8:0:3::1/64")
compute_track_address-IsTracked_example =
    compute_track_address-IsTracked (codes "2001:db8::/56") 3 64 1 (codes "2001:db8:0:3::1/64")
      (omega arith) (omega arith) (omega arith) third
