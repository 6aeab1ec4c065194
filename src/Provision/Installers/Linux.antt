-- ===== src/Provision/Installers/Linux.antt =====
-- The shell installer of a node, as cmd/controller/main.go writes it.
use crybaby.Base.{String}
use crybaby.Base.Text.{◌<>◌}

unfoldable pub sh_script_part1 : String → String → String
sh_script_part1 controller_url cluster_token =
    "#!/usr/bin/env bash\n" <> "# ============================================================\n"
    <> "# CRYBABY CLUSTER - 1-CLICK LINUX NODE INSTALLER\n"
    <> "# ============================================================\n" <> "set -euo pipefail\n"
    <> "\n" <> "if [ \"$EUID\" -ne 0 ]; then\n"
    <> "    echo \"[ERROR] Harap jalankan script ini sebagai root (sudo bash).\" >&2\n"
    <> "    exit 1\n" <> "fi\n" <> "\n"
    <> "echo \"=======================================================\"\n"
    <> "echo \"      CRYBABY CLUSTER - 1-CLICK LINUX NODE INSTALLER   \"\n"
    <> "echo \"=======================================================\"\n"
    <> "echo \"Controller Target: " <> controller_url <> "\"\n" <> "echo \"\"\n" <> "\n"
    <> "mkdir -p /usr/local/bin /etc/crybaby /var/log/crybaby\n" <> "\n"
    <> "echo \"[1/4] Mengunduh biner crybaby-agent...\"\n" <> "curl -fsSL \"" <> controller_url
    <> "/api/v1/binaries/crybaby-agent-linux\" -o /usr/local/bin/crybaby-agent\n"
    <> "chmod +x /usr/local/bin/crybaby-agent\n" <> "\n"
    <> "echo \"[2/4] Menulis konfigurasi cluster...\"\n"
    <> "cat <<'EOF' > /etc/crybaby/crybaby-config.json\n" <> "{\n" <> "  \"controller_url\": \""
    <> controller_url <> "\",\n" <> "  \"cluster_token\": \"" <> cluster_token <> "\",\n"
    <> "  \"cluster_name\": \"Crybaby-Primary-Cluster\"\n" <> "}\n" <> "EOF\n" <> "\n"
    <> "echo \"[3/4] Mendaftarkan systemd service...\"\n"
    <> "cat <<'EOF' > /etc/systemd/system/crybaby-agent.service\n" <> "[Unit]\n"
    <> "Description=Crybaby Cluster Agent\n" <> "After=network.target\n" <> "\n" <> "[Service]\n"
    <> "Type=simple\n"
    <> "ExecStart=/usr/local/bin/crybaby-agent -config /etc/crybaby/crybaby-config.json\n"
    <> "Restart=always\n" <> "RestartSec=5\n" <> "LimitNOFILE=65536\n" <> "\n" <> "[Install]\n"
    <> "WantedBy=multi-user.target\n" <> "EOF\n" <> "\n" <> "systemctl daemon-reload\n"
    <> "systemctl enable crybaby-agent\n" <> "systemctl restart crybaby-agent\n" <> "\n"
    <> "echo \"[4/4] Verifikasi status...\"\n"
    <> "echo \"=======================================================\"\n"

unfoldable pub sh_script_part2 : String → String → String
sh_script_part2 controller_url cluster_token =
    "echo \"[SUCCESS] Linux Server resmi bergabung ke Crybaby Cluster!\"\n"
    <> "echo \"Status service: systemctl status crybaby-agent\"\n" <> "echo \"Dashboard     : "
    <> controller_url <> "\"\n"
    <> "echo \"=======================================================\"\n"

-- The script of `handleWebInstallerSH`.
unfoldable pub sh_script : String → String → String
unfolding sh_script_part1 sh_script_part2
sh_script controller_url cluster_token =
    sh_script_part1 controller_url cluster_token <> sh_script_part2 controller_url cluster_token
