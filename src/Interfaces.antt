-- ===== src/Interfaces.antt =====
-- The network interfaces and the system settings of dayshield-core/src/config/models.rs.
use dayshield_core.Base.{ℕ, Bool, true, false, ◌||◌, Option, none, List, [], ◌∷◌}
use dayshield_core.Base.Text.{Text, codes}
use dayshield_core.Net.Validation.{is_some}

pub data WanMode : Type 0 where
  dhcp pppoe : WanMode

pub data Ipv6Mode : Type 0 where
  static dhcp6 slaac track_interface : Ipv6Mode

pub data RouterAdvertisementMode : Type 0 where
  router_only unmanaged managed assisted stateless : RouterAdvertisementMode

pub record Interface : Type 0 where
  pub name : Text
  pub description : Option Text
  pub addresses : List Text
  pub mtu : Option ℕ
  pub mss : Option ℕ
  pub enabled : Bool
  pub dhcp4 : Bool
  pub ipv6_mode : Ipv6Mode
  pub track_source_interface : Option Text
  pub track_prefix_id : Option ℕ
  pub delegated_prefix_len : Option ℕ
  pub ra_mode : Option RouterAdvertisementMode
  pub ia_pd_hint_len : Option ℕ
  pub vlan : Option ℕ
  pub parent_interface : Option Text
  pub wan_mode : Option WanMode
  pub pppoe_username : Option Text
  pub pppoe_password : Option Text
  pub gateway : Option Text
  pub block_private_networks : Bool
  pub block_bogon_networks : Bool

pub record SystemSettings : Type 0 where
  pub hostname : Text
  pub timezone : Text
  pub ntp_servers : List Text
  pub dns_servers : List Text
  pub ssh_enabled : Bool
  pub ssh_port : ℕ
  pub ssh_permit_root_login : Bool
  pub ssh_password_authentication : Bool
  pub ssh_authorized_keys : List Text
  pub ssh_listen_interfaces : List Text
  pub web_port : ℕ
  pub ipv6_enabled : Bool
  pub management_https_enabled : Bool
  pub management_tls_acme_domain : Option Text

abbrev default_system_settings : SystemSettings
default_system_settings = record {
  hostname = codes "dayshield";
  timezone = codes "UTC";
  ntp_servers = codes "0.pool.ntp.org" ∷ codes "1.pool.ntp.org" ∷ [];
  dns_servers = [];
  ssh_enabled = true;
  ssh_port = 22;
  ssh_permit_root_login = true;
  ssh_password_authentication = true;
  ssh_authorized_keys = [];
  ssh_listen_interfaces = [];
  web_port = 8443;
  ipv6_enabled = false;
  management_https_enabled = false;
  management_tls_acme_domain = none;
}

-- `DotConfig`, the listener for DNS over TLS
pub record DotConfig : Type 0 where
  pub enabled : Bool
  pub port : ℕ
  pub lan_only : Bool
  pub cert_pem : Option Text
  pub key_pem : Option Text
  pub acme_domain : Option Text
  pub acme_cert_storage_path : Option Text

-- an uplink has a WAN mode or a static gateway
unfoldable pub is_wan_interface : Interface → Bool
is_wan_interface iface = is_some iface.wan_mode || is_some iface.gateway
