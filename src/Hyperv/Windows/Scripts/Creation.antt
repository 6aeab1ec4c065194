-- ===== src/Hyperv/Windows/Scripts/Creation.antt =====
-- The scripts by which `windowsEngine` of pkg/hyperv/engine.go makes, copies and lists machines.
use crybaby.Base.{String, ◌||◌, ◌==◌, text_eq, if◌then◌else◌}
use crybaby.Base.Decimal.{show, show_int}
use crybaby.Base.Spaces.{has_prefix}
use crybaby.Base.Text.{◌<>◌}
use crybaby.Types.Vm.{CreateVmRequest}

abbrev pub vhd_path : String → String
vhd_path name = "C:\\Crybaby\\Disks\\" <> name <> ".vhdx"

unfoldable pub list_script : String
list_script =
    "Get-VM | Select-Object Id, Name, State, CPUUsage, MemoryAssigned, MemoryDemand, Uptime, @{N='IPAddresses';E={$_.NetworkAdapters.IPAddresses -join ','}}, @{N='HardDrives';E={$_.HardDrives.Path -join ','}} | ConvertTo-Json -Compress"

unfoldable pub iso_from_url : CreateVmRequest → String
iso_from_url req =
    "\n" <> "\t\t$isoUrl = \"" <> req.iso_path <> "\"\n" <> "\t\t$isoDir = \"C:\\Crybaby\\ISOs\"\n"
    <> "\t\tif (!(Test-Path $isoDir)) { New-Item -ItemType Directory -Path $isoDir -Force | Out-Null }\n"
    <> "\t\t$rawName = [System.IO.Path]::GetFileName($isoUrl.Split('?')[0])\n"
    <> "\t\tif (!$rawName -or $rawName -eq \"\") { $rawName = \"installer.iso\" }\n"
    <> "\t\t$localIso = Join-Path $isoDir $rawName\n" <> "\t\tif (!(Test-Path $localIso)) {\n"
    <> "\t\t\tInvoke-WebRequest -Uri $isoUrl -OutFile $localIso -UseBasicParsing\n" <> "\t\t}\n"
    <> "\t\tAdd-VMDvdDrive -VMName \"" <> req.name <> "\" -Path $localIso\n"
    <> "\t\t$dvd = Get-VMDvdDrive -VMName \"" <> req.name <> "\"\n"
    <> "\t\tSet-VMFirmware -VMName \"" <> req.name
    <> "\" -FirstBootDevice $dvd -EnableSecureBoot $false\n" <> "\t\t"

unfoldable pub iso_from_path : CreateVmRequest → String
iso_from_path req =
    "\n" <> "\t\tAdd-VMDvdDrive -VMName \"" <> req.name <> "\" -Path \"" <> req.iso_path <> "\"\n"
    <> "\t\t$dvd = Get-VMDvdDrive -VMName \"" <> req.name <> "\"\n"
    <> "\t\tSet-VMFirmware -VMName \"" <> req.name
    <> "\" -FirstBootDevice $dvd -EnableSecureBoot $false\n" <> "\t\t"

-- What is run for an installation image: by its address or its path.
unfoldable pub iso_command : CreateVmRequest → String
iso_command req =
    if req.iso_path == ""
    then ""
    else if has_prefix req.iso_path "http://" || has_prefix req.iso_path "https://"
    then iso_from_url req
    else iso_from_path req

unfoldable pub creation : CreateVmRequest → String → String
creation req iso_command =
    "\n"
    <> "\t\t$vhdDir = \"C:\\Crybaby\\Disks\"\n"
    <> "\t\tif (!(Test-Path $vhdDir)) { New-Item -ItemType Directory -Path $vhdDir -Force | Out-Null }\n"
    <> "\t\tNew-VM -Name \""
    <> req.name
    <> "\" -MemoryStartupBytes "
    <> show req.memory_mb
    <> "MB -NewVHDPath \""
    <> vhd_path req.name
    <> "\" -NewVHDSizeBytes "
    <> show req.disk_size_gb
    <> "GB -Generation 2 -SwitchName \""
    <> req.switch_name
    <> "\" | Select-Object -ExpandProperty Id\n"
    <> "\t\tSet-VMProcessor -VMName \""
    <> req.name
    <> "\" -Count "
    <> show_int req.cpu_count
    <> "\n"
    <> "\t\tSet-VM -Name \""
    <> req.name
    <> "\" -AutomaticStartAction StartIfRunning -AutomaticStopAction Save\n"
    <> "\t\t"
    <> iso_command
    <> "\n"
    <> "\t"

unfoldable pub create_script : CreateVmRequest → String
create_script req = creation req (iso_command req)

unfoldable pub clone_script : String → String → String
clone_script source_vm_id new_vm_name =
    "\n" <> "\t\t$src = Get-VM -Id \"" <> source_vm_id <> "\"\n"
    <> "\t\tif (!$src) { throw \"Source VM not found\" }\n" <> "\t\t$existing = Get-VM -Name \""
    <> new_vm_name <> "\" -ErrorAction SilentlyContinue\n"
    <> "\t\tif ($existing) { throw \"A VM named '" <> new_vm_name <> "' already exists\" }\n"
    <> "\t\t$srcVhd = (Get-VMHardDiskDrive -VM $src | Select-Object -First 1).Path\n"
    <> "\t\t$vhdDir = \"C:\\Crybaby\\Disks\"\n"
    <> "\t\tif (!(Test-Path $vhdDir)) { New-Item -ItemType Directory -Path $vhdDir -Force | Out-Null }\n"
    <> "\t\t$newVhd = Join-Path $vhdDir \"" <> new_vm_name <> ".vhdx\"\n"
    <> "\t\tif ($srcVhd -and (Test-Path $srcVhd)) {\n"
    <> "\t\t\tCopy-Item -Path $srcVhd -Destination $newVhd -Force\n" <> "\t\t} else {\n"
    <> "\t\t\tNew-VHD -Path $newVhd -SizeBytes 32GB -Dynamic | Out-Null\n" <> "\t\t}\n"
    <> "\t\t$switch = (Get-VMNetworkAdapter -VM $src | Select-Object -First 1).SwitchName\n"
    <> "\t\tif (!$switch) { $switch = \"Crybaby-LAN\" }\n" <> "\t\t$newVM = New-VM -Name \""
    <> new_vm_name
    <> "\" -MemoryStartupBytes $src.MemoryStartup -VHDPath $newVhd -Generation $src.Generation -SwitchName $switch\n"
    <> "\t\tSet-VMProcessor -VM $newVM -Count $src.ProcessorCount\n"
    <> "\t\tSet-VM -VM $newVM -AutomaticStartAction StartIfRunning -AutomaticStopAction Save\n"
    <> "\t\t$newVM | Select-Object -ExpandProperty Id\n" <> "\t"
