-- ===== src/Provision/Installers.antt =====
-- The installers that cmd/controller/main.go serves to whoever asks.
pub mod Windows
pub mod Linux
use crybaby.Base.{String}
use crybaby.Provision.{Network, Visit, controller_url}
use crybaby.Provision.Installers.Windows.{ps1_script}
use crybaby.Provision.Installers.Linux.{sh_script}

unfoldable pub handle_web_installer_ps1 : Network → String → String → Visit → String
unfolding ps1_script controller_url
handle_web_installer_ps1 n port cluster_token v = ps1_script (controller_url n port v) cluster_token

unfoldable pub handle_web_installer_sh : Network → String → String → Visit → String
unfolding sh_script controller_url
handle_web_installer_sh n port cluster_token v = sh_script (controller_url n port v) cluster_token
