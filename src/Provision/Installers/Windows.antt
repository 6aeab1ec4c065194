-- ===== src/Provision/Installers/Windows.antt =====
-- The PowerShell installer of a node, as cmd/controller/main.go writes it.
use crybaby.Base.{String}
use crybaby.Base.Text.{◌<>◌}

unfoldable pub ps1_script_part1 : String → String → String
ps1_script_part1 controller_url cluster_token =
    "# ============================================================\n"
    <> "# CRYBABY CLUSTER - 1-CLICK SERVER NODE INSTALLER (POWERSHELL)\n"
    <> "# ============================================================\n"
    <> "$ErrorActionPreference = \"Continue\"\n" <> "\n"
    <> "# 1. Self-Elevate to Administrator (UAC) if not already elevated\n"
    <> "$isAdmin = ([Security.Principal.WindowsPrincipal][Security.Principal.WindowsIdentity]::GetCurrent()).IsInRole([Security.Principal.WindowsBuiltInRole]::Administrator)\n"
    <> "if (-not $isAdmin) {\n"
    <> "    Write-Host \"[ELEVASI] Meminta izin Administrator (UAC)...\" -ForegroundColor Yellow\n"
    <> "    Start-Process powershell -ArgumentList '-NoProfile -ExecutionPolicy Bypass -Command \"& { [Net.ServicePointManager]::SecurityProtocol = [Net.SecurityProtocolType]::Tls12; irm "
    <> controller_url <> "/install | iex }\"' -Verb RunAs\n" <> "    exit\n" <> "}\n" <> "\n"
    <> "Write-Host \"=======================================================\" -ForegroundColor Cyan\n"
    <> "Write-Host \"      CRYBABY CLUSTER - 1-CLICK NODE INSTALLER         \" -ForegroundColor Cyan\n"
    <> "Write-Host \"=======================================================\" -ForegroundColor Cyan\n"
    <> "Write-Host \"Controller URL  : " <> controller_url <> "\" -ForegroundColor Green\n"
    <> "Write-Host \"Target Directory: $env:ProgramFiles\\Crybaby\" -ForegroundColor Green\n"
    <> "Write-Host \"\"\n" <> "\n" <> "$TargetDir = \"$env:ProgramFiles\\Crybaby\"\n"
    <> "if (-not (Test-Path $TargetDir)) {\n"
    <> "    New-Item -ItemType Directory -Path $TargetDir -Force | Out-Null\n" <> "}\n" <> "\n"
    <> "# 2. Download crybaby-agent.exe\n"
    <> "Write-Host \"[1/6] Mengunduh biner crybaby-agent.exe dari Controller...\" -ForegroundColor Yellow\n"
    <> "$AgentExePath = \"$TargetDir\\crybaby-agent.exe\"\n" <> "try {\n"
    <> "    Invoke-WebRequest -Uri \"" <> controller_url
    <> "/api/v1/binaries/crybaby-agent.exe\" -OutFile $AgentExePath -UseBasicParsing\n"
    <> "    Write-Host \"      [OK] crybaby-agent.exe berhasil diunduh.\" -ForegroundColor Green\n"
    <> "} catch {\n"
    <> "    Write-Host \"      [ERROR] Gagal mengunduh biner agent: $_\" -ForegroundColor Red\n"
    <> "    exit 1\n" <> "}\n" <> "\n" <> "# 3. Write crybaby-config.json\n"
    <> "Write-Host \"[2/6] Menulis konfigurasi node cluster...\" -ForegroundColor Yellow\n"
    <> "$ConfigJson = @\"\n" <> "{\n" <> "  \"controller_url\": \"" <> controller_url <> "\",\n"
    <> "  \"cluster_token\": \"" <> cluster_token <> "\",\n"
    <> "  \"cluster_name\": \"Crybaby-Primary-Cluster\",\n"
    <> "  \"created_at\": \"$(Get-Date -Format s)Z\"\n" <> "}\n" <> "\"@\n"
    <> "Set-Content -Path \"$TargetDir\\crybaby-config.json\" -Value $ConfigJson -Encoding UTF8\n"
    <> "Write-Host \"      [OK] crybaby-config.json tersimpan.\" -ForegroundColor Green\n" <> "\n"
    <> "# 4. Windows Power Configuration (Anti-Sleep & Server Mode)\n"
    <> "Write-Host \"[3/6] Mengonfigurasi skema daya Windows (Anti-Sleep & Server Mode)...\" -ForegroundColor Yellow\n"
    <> "powercfg -change -standby-timeout-ac 0 2>$null\n"
    <> "powercfg -change -hibernate-timeout-ac 0 2>$null\n"
    <> "powercfg -change -monitor-timeout-ac 15 2>$null\n"
    <> "powercfg -setacvalueindex SCHEME_CURRENT SUB_BUTTONS PBUTTONACTION 0 2>$null\n"

unfoldable pub ps1_script_part2 : String → String → String
ps1_script_part2 controller_url cluster_token =
    "powercfg -setactive SCHEME_CURRENT 2>$null\n"
    <> "Write-Host \"      [OK] Skema daya diatur ke Always-On Server Mode.\" -ForegroundColor Green\n"
    <> "\n" <> "# 5. Windows Firewall & Network Profile\n"
    <> "Write-Host \"[4/6] Mengonfigurasi Windows Firewall & Profil Jaringan LAN...\" -ForegroundColor Yellow\n"
    <> "Set-NetConnectionProfile -NetworkCategory Private -ErrorAction SilentlyContinue 2>$null\n"
    <> "netsh advfirewall firewall delete rule name=\"Crybaby Agent RPC\" 2>$null\n"
    <> "netsh advfirewall firewall add rule name=\"Crybaby Agent RPC\" dir=in action=allow protocol=TCP localport=8081 profile=any description=\"Crybaby Cluster RPC & WebSocket\" 2>$null\n"
    <> "netsh advfirewall firewall delete rule name=\"Crybaby WireGuard Mesh\" 2>$null\n"
    <> "netsh advfirewall firewall add rule name=\"Crybaby WireGuard Mesh\" dir=in action=allow protocol=UDP localport=51820 profile=any description=\"Crybaby P2P Mesh Fabric\" 2>$null\n"
    <> "netsh advfirewall firewall set rule name=\"File and Printer Sharing (Echo Request - ICMPv4-In)\" new enable=yes 2>$null\n"
    <> "Write-Host \"      [OK] Port RPC 8081, WireGuard 51820, dan ICMP Ping dibuka.\" -ForegroundColor Green\n"
    <> "\n" <> "# 6. Windows Update (Anti-Auto Reboot)\n"
    <> "Write-Host \"[5/6] Mengunci kebijakan Windows Update (Anti-Auto Reboot)...\" -ForegroundColor Yellow\n"
    <> "New-Item -Path \"HKLM:\\SOFTWARE\\Policies\\Microsoft\\Windows\\WindowsUpdate\\AU\" -Force -ErrorAction SilentlyContinue | Out-Null\n"
    <> "Set-ItemProperty -Path \"HKLM:\\SOFTWARE\\Policies\\Microsoft\\Windows\\WindowsUpdate\\AU\" -Name \"NoAutoRebootWithLoggedOnUsers\" -Value 1 -Type DWord -Force 2>$null\n"
    <> "Set-ItemProperty -Path \"HKLM:\\SOFTWARE\\Policies\\Microsoft\\Windows\\WindowsUpdate\\AU\" -Name \"AUOptions\" -Value 3 -Type DWord -Force 2>$null\n"
    <> "Set-ItemProperty -Path \"HKLM:\\SOFTWARE\\Policies\\Microsoft\\Windows\\WindowsUpdate\\AU\" -Name \"AlwaysAutoRebootAtScheduledTime\" -Value 0 -Type DWord -Force 2>$null\n"
    <> "Write-Host \"      [OK] Windows Update auto-reboot dicegah.\" -ForegroundColor Green\n"
    <> "\n" <> "# 7. Check & Enable Hyper-V\n"
    <> "Write-Host \"[6/6] Memeriksa Hyper-V dan mendaftarkan Windows Service...\" -ForegroundColor Yellow\n"
    <> "try {\n"
    <> "    $edition = (Get-ItemProperty \"HKLM:\\SOFTWARE\\Microsoft\\Windows NT\\CurrentVersion\").EditionID\n"
    <> "    if ($edition -like \"*Home*\") {\n"
    <> "        $packages = Get-ChildItem -Path \"$env:SystemRoot\\servicing\\Packages\\*Hyper-V*.mum\" -ErrorAction SilentlyContinue\n"
    <> "        if ($packages) {\n"
    <> "            foreach ($pkg in $packages) { dism /online /norestart /add-package:\"$($pkg.FullName)\" 2>$null | Out-Null }\n"
    <> "            dism /online /enable-feature /featurename:Microsoft-Hyper-V-All /norestart /all 2>$null | Out-Null\n"
    <> "        }\n" <> "    } else {\n"
    <> "        $hv = Get-WindowsOptionalFeature -Online -FeatureName Microsoft-Hyper-V -ErrorAction SilentlyContinue\n"
    <> "        if ($hv -and $hv.State -ne \"Enabled\") {\n"
    <> "            Write-Host \"      Mengaktifkan Microsoft-Hyper-V...\" -ForegroundColor Yellow\n"
    <> "            Enable-WindowsOptionalFeature -Online -FeatureName Microsoft-Hyper-V -All -NoRestart -ErrorAction SilentlyContinue | Out-Null\n"
    <> "        }\n" <> "    }\n" <> "} catch {}\n" <> "\n"
    <> "try { Get-Process -Name \"crybaby-agent\" -ErrorAction SilentlyContinue | Stop-Process -Force -ErrorAction SilentlyContinue } catch {}\n"
    <> "\n" <> "try {\n"
    <> "    $oldSvc = Get-Service -Name \"CrybabyAgent\" -ErrorAction SilentlyContinue\n"
    <> "    if ($oldSvc) {\n"
    <> "        Stop-Service -Name \"CrybabyAgent\" -Force -ErrorAction SilentlyContinue\n"
    <> "        sc.exe delete CrybabyAgent 2>&1 | Out-Null\n" <> "    }\n" <> "} catch {}\n" <> "\n"
    <> "$TaskName = \"CrybabyAgent\"\n" <> "try {\n"
    <> "    $oldTask = Get-ScheduledTask -TaskName $TaskName -ErrorAction SilentlyContinue\n"
    <> "    if ($oldTask) {\n"
    <> "        Unregister-ScheduledTask -TaskName $TaskName -Confirm:$false -ErrorAction SilentlyContinue\n"

unfoldable pub ps1_script_part3 : String → String → String
ps1_script_part3 controller_url cluster_token =
    "    }\n" <> "} catch {}\n" <> "\n" <> "try {\n"
    <> "    $TaskAction = New-ScheduledTaskAction -Execute $AgentExePath -Argument ('-config \"' + $TargetDir + '\\crybaby-config.json\"') -WorkingDirectory $TargetDir\n"
    <> "    $TaskTrigger = New-ScheduledTaskTrigger -AtStartup\n"
    <> "    $TaskPrincipal = New-ScheduledTaskPrincipal -UserId \"SYSTEM\" -LogonType ServiceAccount -RunLevel Highest\n"
    <> "    $TaskSettings = New-ScheduledTaskSettingsSet -AllowStartIfOnBatteries -DontStopIfGoingOnBatteries -ExecutionTimeLimit 0 -RestartCount 999 -RestartInterval (New-TimeSpan -Minutes 1)\n"
    <> "    Register-ScheduledTask -TaskName $TaskName -Action $TaskAction -Trigger $TaskTrigger -Principal $TaskPrincipal -Settings $TaskSettings -Force | Out-Null\n"
    <> "    Write-Host \"      [OK] Daemon Startup Task CrybabyAgent terdaftar (AtStartup / SYSTEM).\" -ForegroundColor Green\n"
    <> "} catch {\n"
    <> "    $legacyTr = '\\\"' + $AgentExePath + '\\\" -config \\\"' + $TargetDir + '\\crybaby-config.json\\\"'\n"
    <> "    schtasks.exe /create /tn $TaskName /tr $legacyTr /sc onstart /ru \"SYSTEM\" /rl HIGHEST /f 2>&1 | Out-Null\n"
    <> "    Write-Host \"      [OK] Startup Task CrybabyAgent terdaftar via schtasks.\" -ForegroundColor Green\n"
    <> "}\n" <> "\n" <> "# Daftarkan Registry Run sebagai persistensi sekunder\n" <> "try {\n"
    <> "    $runVal = '\"' + $AgentExePath + '\" -config \"' + $TargetDir + '\\crybaby-config.json\"'\n"
    <> "    New-ItemProperty -Path \"HKLM:\\SOFTWARE\\Microsoft\\Windows\\CurrentVersion\\Run\" -Name \"CrybabyAgent\" -Value $runVal -PropertyType String -Force -ErrorAction SilentlyContinue | Out-Null\n"
    <> "} catch {}\n" <> "\n" <> "# Jalankan proses Agent di background sekarang juga\n"
    <> "Write-Host \"      Memulai proses Crybaby Agent...\" -ForegroundColor Yellow\n"
    <> "Start-Process -FilePath $AgentExePath -ArgumentList ('-config \"' + $TargetDir + '\\crybaby-config.json\"') -WorkingDirectory $TargetDir -WindowStyle Hidden\n"
    <> "Start-Sleep -Seconds 3\n" <> "\n"
    <> "$proc = Get-Process -Name \"crybaby-agent\" -ErrorAction SilentlyContinue\n"
    <> "if ($proc) {\n"
    <> "    Write-Host \"      [OK] Crybaby Agent aktif berjalan di background (PID $($proc.Id))!\" -ForegroundColor Green\n"
    <> "} else {\n"
    <> "    Write-Host \"      [INFO] Memulai via Scheduled Task...\" -ForegroundColor Yellow\n"
    <> "    try { Start-ScheduledTask -TaskName $TaskName -ErrorAction SilentlyContinue } catch {}\n"
    <> "}\n" <> "\n" <> "Write-Host \"\"\n"
    <> "Write-Host \"=======================================================\" -ForegroundColor Green\n"
    <> "Write-Host \"[SUCCESS] PC Server resmi bergabung ke Crybaby Cluster!\" -ForegroundColor Green\n"
    <> "Write-Host \"Agent Service : Berjalan otomatis saat Windows booting\" -ForegroundColor Green\n"
    <> "Write-Host \"Status Node   : Periksa di Controller Dashboard (" <> controller_url
    <> ")\" -ForegroundColor Green\n"
    <> "Write-Host \"=======================================================\" -ForegroundColor Green\n"
    <> "Write-Host \"\"\n"

-- The script of `handleWebInstallerPS1`.
unfoldable pub ps1_script : String → String → String
unfolding ps1_script_part1 ps1_script_part2 ps1_script_part3
ps1_script controller_url cluster_token =
    ps1_script_part1 controller_url cluster_token
    <> ps1_script_part2 controller_url cluster_token
    <> ps1_script_part3 controller_url cluster_token
